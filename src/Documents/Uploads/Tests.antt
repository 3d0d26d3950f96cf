-- ===== src/Documents/Uploads/Tests.antt =====
-- An upload and a deletion with the sample clients.
use urban_octo_tribble.Base.{some, codes, arith}
use urban_octo_tribble.Validation.{UploadFile}
use urban_octo_tribble.Documents.{upload_document}
use urban_octo_tribble.Documents.Changes.{delete_document}
use urban_octo_tribble.Documents.Samples.{clients, document, state, fields}
use urban_octo_tribble.Documents.Outcomes.{IsDeletion, delete_document-IsDeletion}
use urban_octo_tribble.Documents.Uploads.{Outcome, AreFresh, upload_document-Outcome}

abbrev file : UploadFile
file = record {
  size = 3;
  content_type = some (codes "application/pdf");
  filename = some (codes "fees.pdf");
}

fresh_ids : AreFresh clients state
fresh_ids id h = (ground (arith, h), tt)

upload_document-Outcome_example :
    Outcome clients 2 fields file state (upload_document clients 2 fields file state)
upload_document-Outcome_example = upload_document-Outcome clients 2 fields file state fresh_ids

delete_document-IsDeletion_example :
    IsDeletion clients document state (delete_document clients 2 document state)
delete_document-IsDeletion_example = delete_document-IsDeletion clients 2 document state

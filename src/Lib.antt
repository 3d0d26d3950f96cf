-- ===== src/Lib.antt =====
-- Verification of the backend of a document question-answering service (FastAPI, SQLAlchemy,
-- Redis, Celery). Users register, log in and upload documents; the documents are split into
-- chunks, embedded and searched to answer questions; a document can be shared by a short URL. A
-- request goes through the middlewares (rate limit, idempotency), then through the dependencies
-- that check its token, and then to a handler. This library models the parts below, each in one
-- file with its proofs in the files of the folder of the same name. Paths are from the
-- repository's root.
--
-- Base: the names and lemmas that the parts share; text is a list of code points (Base/Texts),
-- signed integers are Base/Int, a handler that changes state is a function of Base/Exec, a chain
-- of checks that changes nothing is one of Base/Results.
--
-- Database: what is relied on of SQLAlchemy and PostgreSQL, an interface `Table` with an instance
-- on lists. Redis: what is relied on of the Redis server, an interface with an instance on lists;
-- times are in microseconds, and a command either has its effect or raises.
--
-- Snowflake: app/utility/snowflake.py, `SnowflakeID` as a record and `generate` as a function of
-- the clock's readings, in order. `_wait_next_millis` consumes readings, so it ends when a
-- reading comes that is past the last id's.
--
-- Base62: app/utility/base62_encoder.py. The loop of `encode` is by recursion on the order of the
-- numbers, without fuel.
--
-- ShortUrl: app/models/shorturl.py and the handlers `create_short_url`, `redirect_short_url` and
-- `get_short_url_stats` of app/routes/documents.py, over a table, an id generator and a clock.
--
-- RateLimit: `TokenBucket.consume` of app/middleware/rate_limit.py with its part of
-- app/services/optimization/redis_service.py; RateLimit/Middleware is `rate_limit_middleware`.
-- RateLimit/Bucket has the specification, a bucket that is never forgotten. Tokens are counted
-- exactly, not in floats, and a call of `consume` is one step: calls that overlap between their
-- read and their write of Redis are not modelled. The fuel of `remove_all` is the length of the
-- text, and each unit takes at least one character.
--
-- Idempotency: app/middleware/idempotency.py around an application that is a parameter. A request
-- is answered before the next begins.
--
-- Chunking: `DocumentChunker.chunk` and `ChunkBuilder` of app/services/ai/chunking.py, for any
-- encoder. The loop's fuel is the number of tokens, since each turn moves the start by at least
-- one.
--
-- Auth: app/core/constants.py, app/core/security.py, app/models/user.py and the token blacklist
-- of app/services/optimization/redis_service.py; Auth/Access is app/dependencies.py, Auth/Issue
-- and Auth/Sessions are login, refresh and logout of app/routes/auth.py. PyJWT is the interface
-- `Jwt`; Auth/PlainJwt is an instance. A request reads the clock once.
--
-- Documents: app/models/document.py and the handlers of app/routes/documents.py that create and
-- upload documents, with the keys of app/services/storage/minio_adapter.py; Documents/Changes has
-- those that update, delete and list.
--
-- HybridSearch: app/services/ai/hybrid_search.py, for any scores that are ordered. Two
-- dictionaries are lists of pairs in the order of insertion (Base/Dict); HybridSearch/Fusion is
-- the invariant of the two loops, HybridSearch/Fusion/Formula the sums.
--
-- Cache: the caches of answers and of embeddings of app/services/optimization/redis_service.py,
-- over the same interface of Redis, with JSON and the hash as parameters.
--
-- VectorStore: app/services/ai/vector_store.py; Qdrant is an interface. The fuel of an upload is
-- the number of its points, since every batch takes at least one.
--
-- Rag: the data of app/services/ai/rag.py; Rag/Asking has `_retrieve_chunks`, `ask` and
-- `ask_stream`, which call the modelled cache, classifier and LLM service. A stream is the list
-- of its events, the exception that ends it, and the state where the consumer leaves it and where
-- it takes all.
--
-- Query: app/routes/query.py: the handlers that answer at once here, those that stream in
-- Query/Streaming, the history in Query/History and the searches in Query/Search.
--
-- Pipeline: the tasks of app/tasks, process and chunk in Pipeline, embed and the worker in
-- Pipeline/Worker. Each task is an action on the committed tables, the vector store and the
-- queue; which commits succeed is a list.
--
-- Pagination: app/schemas/pagination.py. Validation: app/services/validation/validators.py. Llm:
-- `LLMService` of app/services/ai/llm.py, for any providers; Llm/Providers has the streams of the
-- two providers, by what their clients give. Classifier: app/services/ai/query_classifier.py, for
-- any regular expression engine.
--
-- Not modelled: registration, the Redis keys of metrics, the event producer and consumers, the
-- retries and the broker of Celery, storage, embeddings, the remaining middlewares, database
-- setup and migrations, configuration and logging, the scripts. Of what is modelled, floats, JSON
-- and logging are left out.
pub mod Base
pub mod Database
pub mod Redis
pub mod Snowflake
pub mod Base62
pub mod ShortUrl
pub mod RateLimit
pub mod Idempotency
pub mod Chunking
pub mod Auth
pub mod Pagination
pub mod Validation
pub mod Llm
pub mod Classifier
pub mod HybridSearch
pub mod Cache
pub mod VectorStore
pub mod Rag
pub mod Query
pub mod Pipeline
pub mod Documents

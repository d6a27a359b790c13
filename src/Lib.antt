-- ===== src/Lib.antt =====
-- MachinePal: an HTTP server that sells resources for payments by the x402 protocol. A request for a
-- priced resource carries a signed EIP-3009 authorization in its header X-PAYMENT. The server checks
-- it, has a facilitator settle it, records the settlement, and only then asks the resource's backend
-- for the answer. A test facilitator with its own ledger, EasyNet, is built in.
--
-- The parts, and the files that model them:
--   * Server/Handler: src/x402_server/X402Handler.cpp. The callbacks onRequest, onBody, onEOM and
--     onError over IProcessor, which is a record that Server/Handler/Processors fills twice.
--   * X402/Processor, with X402/Host and X402/Responses: src/x402_protocol/X402Processor.cpp. Its
--     fields are the record X402State; each method is a state-passing function that may throw
--     (Exec). X402/Backend: HttpEndpointConnection.cpp. Url: src/url/URLUtils.cpp.
--   * Payment/Manager: src/payment/PaymentManager.cpp and routeToFacilitatorAndSettle of
--     src/facilitator_clients/FacilitatorClientManager.cpp. The record Settlements has the table of
--     settled payments, currentlySettlingPayments_ and, for the statements, the requests that were
--     sent to the facilitator. Payment/Manager/Interleaving has the steps of concurrent requests:
--     one atomic step for each operation that the code guards by a mutex or leaves to the database.
--   * Payment/Payload and Payment/Messages: src/payment/datastructures, read, printed and validated.
--   * Facilitator/Client: the HTTP clients of src/facilitator_clients over libcurl.
--   * Facilitator/Processor: src/x402_protocol/FacilitatorProcessor.cpp; Facilitator/EasyNet and
--     Facilitator/Errors: src/facilitators.
--   * Db/EasyNet: src/db/EasyNetDb.cpp, whose tables are lists of rows. Transferring has
--     transferValueUnsafe over a session, whose transaction keeps what a rollback restores, and
--     Attempts what it comes to as a function of the tables. Db/Payments: src/db/MachinePalDb.cpp
--     and PaymentRecord.cpp with the unique index.
--   * Crypto: Encoding, EthAddress, TokenAmount, EIP712Domain and EIP3009Authorization of src/crypto;
--     Crypto/Keys: EthPrivateKey and EthPublicKey over libsecp256k1.
--   * Config/Resources: the lookups of src/config/MachinePalConfig and its subconfigs. Config/Json,
--     Labels, Sections, Domains, Organizations and Reading: JsonUtils.h and what each subconfig, and
--     then MachinePalConfig, makes of a JSON document. Config/Yaml and Config/Loading:
--     src/config/ConfigLoader.cpp, from the YAML file to the configuration. Config/Manager:
--     src/config/ConfigManager.cpp, its start and its reload, between which the file system may
--     change; Config/Environment has what it reads, with the overrides of src/init/Init.cpp. Files:
--     src/filesystem/FileManager.cpp.
--   * Vibemarket: src/vibemarket/VibeSwap.cpp, an exchange of tokens in memory. The record Market has
--     the pairs and the balances; Words has the arithmetic of uint256_t. No part of the server calls
--     it. Vibemarket/Trading has the sequences of its calls.
--   * Prelude, Result, Exec and Http have what the parts share: bytes, lists and tests on numbers,
--     exceptions as values (CHECK_STATE, RETHROW_NESTED of src/MachinePalCommon.h), methods that
--     change state, requests, and the channel on which a processor answers. Tests has a concrete
--     instance of every parameter.
--
-- Parameters. Platform has the operations of nlohmann::json, boost, Keccak, the recovery of a public
-- key and proxygen's headers; Curl and UrlParser those of libcurl and boost::urls, and Loader those of
-- yaml-cpp and the schema validator. The hypothesis
-- IsDocumented says of uint256_t that its decimals are canonical and are read back, and
-- IsDocumentedParser of boost::urls how a path, its segments and its decoding belong together. The
-- databases
-- take an engine, which runs a statement or throws; the facilitator's client is a function from
-- requests to results.
--
-- Bounds. Numbers of the type u256 wrap at 2^256, and statuses are cut to 16 bits where the code
-- does so; a body has at most 1 MiB. Every loop runs over a list but
-- the two of integerSqrt, which take fuel: 256 rounds are enough below 2^254, and from there on the
-- code does not end, which addLiquidity's model says by `none`. A noexcept
-- method that throws ends the process, which the events of the handler's interface say by a flag.
--
-- Not modelled: the start of the program, the command line and the generators under src/admin; the
-- messages of the schema validator; the check of
-- certificates, which is a parameter; the schemas and the connection pool of the
-- databases; TLS, certificates and key generation, and the constructors of
-- EthPublicKey from text; the response
-- sender and the server factory; logging; src/x402_client, which is another
-- program. In the facilitator the app's database is the EasyNet one.
pub mod Prelude
pub mod Result
pub mod Exec
pub mod Platform
pub mod Http
pub mod Crypto
pub mod Config
pub mod Db
pub mod Facilitator
pub mod Payment
pub mod Url
pub mod Files
pub mod X402
pub mod Server
pub mod Vibemarket
mod Tests

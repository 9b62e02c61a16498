-- ===== src/Workflow.antt =====
-- How the messages of one service fit the next one (samples/aa-flow-based-lending/src, the
-- controllers of the services). The clean room between the financial information user and the
-- business rule engine, which decrypts each document where it stands, is not modelled.
pub mod Consent
pub mod Encryption
pub mod Payload
pub mod Scoring
pub mod Peers
pub mod Certificate
pub mod Start
pub mod Grant
pub mod Notify
pub mod Session
pub mod Deliver

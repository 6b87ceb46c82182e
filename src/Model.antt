-- ===== src/Model.antt =====
-- The crate of shared values, crates/easycon-model/src: inputs of the controller, errors, identifiers.
pub mod Controller
pub mod Error

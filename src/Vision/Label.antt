-- ===== src/Vision/Label.antt =====
-- crates/easycon-vision/src/label.rs: the parts of a label's parser and evaluator that compute on numbers
-- and texts. A text is the list of its Unicode scalars.
pub mod Similarity
pub mod Diagnostics
pub mod Region
pub mod Base64

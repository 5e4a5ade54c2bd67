-- ===== src/Image.antt =====
-- crates/mimo26-image/src: the decoding of images in requests.
pub mod Base64

-- ===== src/Pull.antt =====
-- image-rs/src: pulling an image, its layers and the record of what was pulled.
pub mod Stream
pub mod Layer
pub mod Layers
pub mod Meta
pub mod Image
mod Tests

-- ===== src/Products.antt =====
-- The catalogue of products and the questions on assets: src/products.
pub mod Questions

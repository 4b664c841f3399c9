-- ===== src/Product.antt =====
-- Products and their clients: platform/backend/internal/modules/product. Product.Service holds the
-- commands of product.go, Product.Store the transactions of postgres/repository.go, and Product.Laws
-- what they keep.
pub mod Model
pub mod Checks
pub mod Store
pub mod Service
pub mod Laws
mod Tests

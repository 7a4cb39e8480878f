-- ===== src/Lsp.antt =====
-- internal/lsp: the clangd sessions and the client that talks to one of them.
pub mod Documents
pub mod Framing
pub mod Manager
pub mod Outline
pub mod Progress

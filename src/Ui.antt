-- ===== src/Ui.antt =====
-- internal/pkg/server/ui: the user interface's sessions, login and routes.
pub mod Base64
pub mod Session
pub mod Events
pub mod Http
pub mod Login
pub mod Mux

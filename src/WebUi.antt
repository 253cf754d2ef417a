-- ===== src/WebUi.antt =====
-- webui/http_files.go and webui/update_check.go, the parts of the web server that keep files and compare
-- versions.
pub mod HttpFiles
mod Tests

-- ===== src/Execx.antt =====
-- internal/execx/runner.go: running one command on a remote host. `Writer` is what captures a
-- stream, `Shell` what quotes the command, `Trailer` what reads the exit code back, `Lines` what
-- selects the lines that are shown, `Pages` what reads a recorded stream page by page.
pub mod Bytes
pub mod Writer
pub mod Trailer
pub mod Shell
pub mod Lines
pub mod Pages

-- ===== src/ShellSpec.antt =====
-- Shell specifications (src/shellspec.rs): the rendering of the templates in a document and the parsing of an
-- entry.
pub mod Template
pub mod Printed
pub mod Split
pub mod Total
pub mod Entry
pub mod Parsed
pub mod Rendered
pub mod Sources

-- ===== src/Grl.antt =====
-- pkg/engine/grltranslate.go: rule conditions compiled to the rule language of the Grule engine.
pub mod Bytes
pub mod Lexer
pub mod Translate
pub mod Compile

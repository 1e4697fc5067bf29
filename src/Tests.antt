-- ===== src/Tests.antt =====
-- The theorems at concrete inputs.
mod CursorCases
mod RwLockCases
mod ParserCases
mod SyntaxCases
mod ResolverCases
mod CacheCases
mod GraphCases

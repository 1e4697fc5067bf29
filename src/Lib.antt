-- ===== src/Lib.antt =====
-- FTLLexEngine, a library for Fluent translation lists: the parts of it that carry its own logic,
-- and what holds of them.
--
-- The program reads a text of messages (syntax/), keeps them in bundles, and resolves a message
-- to a string on request (runtime/). A parser moves an immutable cursor over the text; a
-- serializer writes the syntax tree back. Bundles share a readers-writer lock: a request for a
-- message reads, a change of the bundle writes. What a request resolved is kept in a cache with a
-- checksum for each entry.
--
-- Files, and the code that they are about (paths from the root of the repository):
--   Base           lists, texts as code points, dictionaries, results that raise
--   Cursor         src/ftllexengine/syntax/cursor.py: Cursor, one function per method
--   LineOffsets    src/ftllexengine/syntax/cursor.py: LineOffsetCache
--   Identifier     src/ftllexengine/core/identifier_validation.py
--   Primitives     src/ftllexengine/syntax/parser/primitives.py
--   Whitespace     src/ftllexengine/syntax/parser/whitespace.py
--   Syntax         src/ftllexengine/syntax/ast.py: expressions and patterns
--   Outcome        src/ftllexengine/syntax/parser/context.py, and what a grammar rule returns
--   Patterns       src/ftllexengine/syntax/parser/patterns.py: the helpers
--   Terminals      src/ftllexengine/syntax/parser/expressions.py: the rules without recursion
--   Grammar        src/ftllexengine/syntax/parser/expressions.py and patterns.py: the rules that
--                  call each other
--   Entries        src/ftllexengine/syntax/parser/entries.py
--   ResourceParser src/ftllexengine/syntax/parser/core.py: the pieces of FluentParserV1
--   Rounds         src/ftllexengine/syntax/parser/core.py: the loop of parse, and the constructor
--   StringLiterals src/ftllexengine/syntax/serializer.py: the string literals
--   RwLock         src/ftllexengine/runtime/rwlock.py: RWLock, with a system of threads
--   CacheEntry     src/ftllexengine/runtime/cache_types.py: entries, checksums, weights
--   Cache          src/ftllexengine/runtime/cache.py and cache_audit.py: IntegrityCache
--   Lru            the list of contents that the cache implements
--   Depth          src/ftllexengine/core/depth_guard.py, and GlobalDepthGuard of
--                  src/ftllexengine/runtime/resolution_context.py
--   Resolution     src/ftllexengine/runtime/resolution_context.py: ResolutionContext
--   Resolver       src/ftllexengine/runtime/: resolver.py, resolver_runtime.py,
--                  resolver_selection.py, and select_plural_category of plural_rules.py
--   ReferenceGraph src/ftllexengine/core/reference_graph.py: canonical cycles
--   CycleSearch    src/ftllexengine/core/reference_graph.py: detect_cycles
--   Tests          the same code at concrete inputs
--
-- How code and model correspond. A text is a list of code points, and an index into it a natural
-- number; offsets and counts that may be negative are ℤ. A method that raises returns Exn, a
-- parser returns Parsed, as in the code. A method that changes its object returns the new state.
-- A critical section of the lock is one function, which ends by returning, by raising or by
-- waiting; the threads interleave between critical sections, as steps of a relation.
--
-- An operation of the cache takes the key that the code makes of the arguments, or none where it
-- can make none; the digest function blake2b and the text of a key are parameters, the text one
-- that may differ from call to call for equal keys, and a dictionary is a list of items in its
-- order. The checksum is taken over the bytes that the code feeds, in its order; lengths and
-- numbers too large for their bytes, for which the code raises, are cut off.
--
-- Loops over a text run on fuel, which is the length of the text that is left: every round moves
-- the cursor forward by at least one character, so the fuel is enough, and a theorem about the
-- result of such a loop says so by giving that result. The binary search of LineOffsets has the
-- number of lines as its fuel.
--
-- A grammar rule returns an Outcome: a node and the cursor behind it, None, an exception, or that
-- its fuel ran out. The flag that all contexts of a parse share, which says that the nesting limit
-- was exceeded, is an argument and a part of the result. Each call of a rule costs a unit of fuel;
-- at most six calls follow each other before a character is passed, so that the callers give six
-- units for each character that is left. The loop of parse gets a unit for each character.
--
-- The loop of detect_cycles runs on the fuel `rounds`: a search enters at most as many nodes below
-- one another as the graph has, and queues at most as many neighbors for each.
--
-- The resolver threads its context, the depth of expressions, the global depth and the list of
-- errors. What an expression holds is a smaller tree; a message or a term that it refers to costs
-- one level, and the context refuses more than its maximum depth of them. The registry of functions,
-- what Python does with numbers, and the plural rules of a locale are parameters, which may raise.
--
-- Not modelled: parse_stream; the serializer but for its string literals; the bundles, the
-- localization and the introspection modules; all else that calls the package Babel; the texts of
-- error messages; the numeric value of a number literal, which its text gives. The condition
-- variable of the standard library is modelled by what its documentation says: `wait` parks the
-- thread, `notify_all` wakes all that are parked.
pub mod Base
pub mod Cache
pub mod CacheEntry
pub mod Cursor
pub mod CycleSearch
pub mod Depth
pub mod Entries
pub mod Grammar
pub mod Identifier
pub mod LineOffsets
pub mod Lru
pub mod Outcome
pub mod Patterns
pub mod Primitives
pub mod ReferenceGraph
pub mod Resolution
pub mod Resolver
pub mod ResourceParser
pub mod Rounds
pub mod RwLock
pub mod StringLiterals
pub mod Syntax
pub mod Terminals
pub mod Tests
pub mod Whitespace

-- ===== src/Entries/Valid.antt =====
-- src/ftllexengine/syntax/ast.py: the conditions that the entries of a parsed text meet, those of
-- `Message.__post_init__` and `Span.__post_init__` among them.
use ftllex_engine.Base.{ℕ, Option, none, some, Text, All, ◌≡◌, true}
use ftllex_engine.Syntax.Valid.{SpanIn, IdentifierIn, PatternIn}
use ftllex_engine.Entries.{Comment, Attribute, Definition, validate_message_content}

pub record AttributeIn (text : Text) (n : ℕ) (a : Attribute) : Type 0 where
  pub id_in : IdentifierIn text a.id
  pub value_in : PatternIn text n a.value
  pub span_in : SpanIn text a.span

abbrev pub OptionalCommentIn : Text → Option Comment → Type 0
OptionalCommentIn text none = Unit
OptionalCommentIn text (some c) = SpanIn text c.span

-- A message or term: a value or an attribute is there, and all nodes fit the text.
pub record DefinitionIn (text : Text) (n : ℕ) (d : Definition) : Type 0 where
  pub id_in : IdentifierIn text d.id
  pub value_in : PatternIn text n d.value
  pub attributes_in : All (AttributeIn text n) d.attributes
  pub comment_in : OptionalCommentIn text d.comment
  pub span_in : SpanIn text d.span
  pub has_content : validate_message_content d.value d.attributes ≡ true

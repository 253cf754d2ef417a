-- ===== src/Composer.antt =====
-- composer: `.http` files, read block by block, and their highlighting.
pub mod Grammar
pub mod Positions
pub mod Reading
pub mod Blocks
pub mod Files
pub mod Termination
mod Tests
pub mod Hang
pub mod Scan
pub mod Highlight
use http_stack_lens.Base.{◌+◌, ◌≤◌, ℕ, Bool, List, Bytes, leb}
use http_stack_lens.Http.Messages.{ResourceEndpoint, Version}
use http_stack_lens.Parsing.{TextPosition}

pub record PositionedText (A : Type 0) : Type 0 where
  pub text : A
  pub start : TextPosition
  pub end : TextPosition

-- Empty
abbrev pub is_empty_span : {A : Type 0} → PositionedText A → Bool
is_empty_span t = leb t.end.offset t.start.offset

abbrev pub CommentLine : Type 0
CommentLine = PositionedText Bytes

pub record PositionedHeader : Type 0 where
  pub name : PositionedText Bytes
  pub value : PositionedText Bytes

pub record FileVariable : Type 0 where
  pub name : PositionedText Bytes
  pub value : PositionedText Bytes

pub record PositionedHttpRequestLine : Type 0 where
  pub http_method : PositionedText Bytes
  pub target : PositionedText Bytes
  pub endpoint : PositionedText ResourceEndpoint
  pub resolved : Bool
  pub version : PositionedText Version

pub record HttpRequestFileItem : Type 0 where
  pub header_comments : List CommentLine
  pub http_request_line : PositionedHttpRequestLine
  pub headers : List PositionedHeader
  pub inner_comments : List CommentLine
  pub body : PositionedText Bytes

pub record ParseIssue : Type 0 where
  pub message : Bytes
  pub start : TextPosition
  pub end : TextPosition

pub record HttpFile : Type 0 where
  pub variables : List FileVariable
  pub requests : List HttpRequestFileItem
  pub issues : List ParseIssue

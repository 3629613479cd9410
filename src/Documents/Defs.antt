-- ===== src/Documents/Defs.antt =====
-- src/models/shared/result.ts and the records of src/models/documents/document.ts. Revisions, sort
-- orders and times are natural numbers; an optional field is an `Option`, and one that may be null
-- as well is `none` for both.
use my_note_book.Base.{ℕ, String, Bool, Option, List}

pub data AppErrorCode : Type 0 where
  database_unavailable not_found revision_conflict validation_error unknown : AppErrorCode

pub record AppError : Type 0 where
  pub code : AppErrorCode
  pub message : String

pub data AppResult {ℓ} (T : Type ℓ) : Type ℓ where
  ok : T → AppResult T
  err : AppError → AppResult T

pub data DocumentKind : Type 0 where
  article group : DocumentKind

pub record DocumentRecord : Type 0 where
  pub id : String
  pub parent_id : Option String
  pub document_kind : DocumentKind
  pub title : String
  pub tags : List String
  pub source_url : String
  pub author : String
  pub description : String
  pub content_json : String
  pub plain_text : String
  pub schema_version : ℕ
  pub revision : ℕ
  pub sort_order : ℕ
  pub is_deleted : Bool
  pub created_at : ℕ
  pub updated_at : ℕ

pub record DocumentSummary : Type 0 where
  pub id : String
  pub parent_id : Option String
  pub document_kind : DocumentKind
  pub title : String
  pub tags : List String
  pub source_url : String
  pub author : String
  pub description : String
  pub plain_text : String
  pub character_count : Option ℕ
  pub revision : ℕ
  pub sort_order : ℕ
  pub is_deleted : Bool
  pub created_at : ℕ
  pub updated_at : ℕ

pub record SaveDocumentInput : Type 0 where
  pub id : String
  pub expected_revision : Option ℕ
  pub parent_id : Option String
  pub document_kind : DocumentKind
  pub title : String
  pub tags : Option (List String)
  pub source_url : Option String
  pub author : Option String
  pub description : Option String
  pub content_json : String
  pub plain_text : String
  pub sort_order : ℕ

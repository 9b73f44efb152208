-- ===== src/InputControl/Files.antt =====
-- input-control-demo/src/file-analyzer.ts, analyzeFile, and the metadata part of
-- detectors/hidden-content-detector.ts. What reads a document of each format, and the names, hashes
-- and masks of values, are arguments.
pub mod Response
pub mod Service
pub mod Unread
use agentguard_action_proxy.Common.{
  ℕ, String, Bool, true, false, not, ◌==◌, Option, none, some, List, [], ◌∷◌, ◌++◌, map,
  if◌then◌else◌, ltb,
}
use agentguard_action_proxy.Common.Dict.{Dict, lookup}
use agentguard_action_proxy.Common.Lists.{length}
use agentguard_action_proxy.InputControl.Models.{
  review, Severity, medium, high, contributes, Finding,
}
use agentguard_action_proxy.InputControl.PolicyEngine.{contains_text}
use agentguard_action_proxy.InputControl.Masking.{Text, units}

-- The bytes of a file.
abbrev pub Buffer : Type 0
Buffer = List ℕ

-- models.ts, without the fields that nothing sets.
pub record FileMetadata : Type 0 where
  pub original_name : String
  pub normalized_name : String
  pub extension : String
  pub mime_type : String
  pub size : ℕ
  pub sha256 : String
  pub title : Option String
  pub author : Option String
  pub page_count : Option ℕ
  pub document_length : Option ℕ
  pub extracted_text_length : ℕ
  pub encrypted : Bool
  pub parse_success : Bool
  pub external_links : List String

-- What is read from a document.
pub record Document : Type 0 where
  pub text : Text
  pub page_count : Option ℕ
  pub title : Option String
  pub author : Option String

-- The limits of the policy file.
pub record FileLimits : Type 0 where
  pub max_file_bytes : ℕ
  pub supported_files : Dict (List String)

-- `normalizeFilename`, `path.extname(name).toLowerCase()`, the decoding of texts, the extraction of
-- the text of a document, which is `none` where it throws, and `links`.
pub record FileReaders : Type 0 where
  pub normalize_filename : String → String
  pub extension_of : String → String
  pub sha256 : Buffer → String
  pub decode_utf8 : Buffer → Text
  pub extract_docx_text : Buffer → Option Text
  pub extract_pdf_text : Buffer → Option Document
  pub links : Text → List String

pub record Analyzed : Type 0 where
  pub text : Text
  pub metadata : FileMetadata
  pub findings : List Finding
  pub error_code : Option String

unfoldable pub file_finding : String → Finding
file_finding type = record {
  category = "FILE_SAFETY";
  severity = if type == "document_parse_failed" then high else medium;
  type = some type;
  matched_rule = type;
  evidence = type;
  location = record { source = "file_metadata"; start = 0; end = 0 };
  masked_value = none;
  fingerprint = none;
  decision_contribution = none;
  masking_required = none;
  reason = none;
}

abbrev plain_document : Text → Document
plain_document text = record { text = text; page_count = none; title = none; author = none }

unfoldable pub size_findings : FileLimits → Buffer → List Finding
unfolding file_finding
size_findings limits buf =
    if ltb limits.max_file_bytes (length buf)
    then file_finding "file_size_limit_exceeded" ∷ []
    else []

-- By the types that the policy file lists for the extension.
unfoldable pub listed_findings : Option (List String) → String → List Finding
unfolding file_finding
listed_findings none mime = file_finding "unsupported_file_type" ∷ []
listed_findings (some types) mime =
    if contains_text mime types then [] else file_finding "mime_extension_mismatch" ∷ []

-- The findings in front of the reading.
unfoldable pub type_findings : FileLimits → Buffer → String → String → List Finding
unfolding size_findings listed_findings
type_findings limits buf extension mime =
    size_findings limits buf ++ listed_findings (lookup extension limits.supported_files) mime

module _ (readers : FileReaders) where
  unfoldable pub read_document : String → Buffer → Option Document
  read_document extension buf =
      if extension == ".txt"
      then some (plain_document (readers.decode_utf8 buf))
      else if extension == ".docx"
      then elim (readers.extract_docx_text buf) [
        | none ↦ none
        | some text ↦ some (plain_document text)
      ]
      else if extension == ".pdf"
      then readers.extract_pdf_text buf
      else some (plain_document [])

  -- Before anything is read.
  unfoldable pub new_metadata : Buffer → String → String → FileMetadata
  new_metadata buf filename mime =
      let name = readers.normalize_filename filename in
      record {
        original_name = filename;
        normalized_name = name;
        extension = readers.extension_of name;
        mime_type = mime;
        size = length buf;
        sha256 = readers.sha256 buf;
        title = none;
        author = none;
        page_count = none;
        document_length = none;
        extracted_text_length = 0;
        encrypted = false;
        parse_success = false;
        external_links = [];
      }

  unfoldable pub after_reading : FileMetadata → Option Document → Analyzed
  unfolding file_finding
  after_reading meta none = record {
    text = [];
    metadata = record meta { encrypted = true };
    findings = file_finding "document_parse_failed" ∷ [];
    error_code = some "DOCUMENT_PARSE_FAILED";
  }
  after_reading meta (some document) = record {
    text = document.text;
    metadata = record meta {
      title = document.title;
      author = document.author;
      page_count = document.page_count;
      document_length = some (length document.text);
      extracted_text_length = length document.text;
      parse_success = true;
      external_links = readers.links document.text;
    };
    findings = [];
    error_code = none;
  }

  -- From the findings on the type of the file on.
  unfoldable pub after_type_check : FileMetadata → Option Document → List Finding → Analyzed
  unfolding after_reading
  after_type_check meta document [] = after_reading meta document
  after_type_check meta document (f ∷ fs) = record {
    text = [];
    metadata = meta;
    findings = f ∷ fs;
    error_code = none;
  }

  unfoldable pub analyze_file : FileLimits → Buffer → String → String → Analyzed
  unfolding type_findings read_document new_metadata after_type_check
  analyze_file limits buf filename mime =
      let meta = new_metadata buf filename mime in
      after_type_check meta (read_document meta.extension buf)
        (type_findings limits buf meta.extension mime)

-- `mask` and `fingerprint` of detectors/utils.ts.
pub record ValueMarks : Type 0 where
  pub mask : String → String → String
  pub fingerprint : String → String

module _ (marks : ValueMarks) where
  -- `add`, at the start of the metadata and for a review.
  unfoldable pub hidden_finding : String → Severity → String → String → Finding
  hidden_finding type severity value rule = record {
    category = "HIDDEN_DOCUMENT_INFO";
    severity = severity;
    type = some type;
    matched_rule = rule;
    evidence = marks.mask type value;
    location = record { source = "file_metadata"; start = 0; end = length (units value) };
    masked_value = some (marks.mask type value);
    fingerprint = some (marks.fingerprint value);
    decision_contribution = some (contributes review);
    masking_required = none;
    reason = none;
  }

  -- What `detectHiddenContent` finds in the metadata.
  unfoldable pub metadata_findings : FileMetadata → List Finding
  unfolding hidden_finding
  metadata_findings metadata =
      (if not metadata.parse_success
        then hidden_finding "DOCUMENT_PARSE_FAILED_HIDDEN_INFO" high "PARSE_FAILED"
            "hidden_parse_failed"
          ∷ []
        else [])
      ++ (map (λ l. hidden_finding "DOCUMENT_EXTERNAL_URL" medium l "hidden_external_url")
            metadata.external_links
          ++ (if metadata.encrypted
              then hidden_finding "ENCRYPTED_DOCUMENT" high "encrypted" "hidden_encrypted" ∷ []
              else []))

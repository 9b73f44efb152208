-- ===== src/Tests/Uploads.antt =====
-- The inspection of sample files.
use agentguard_action_proxy.Common.{◌≡◌, refl, inl, inr, String, none, some, [], ◌∷◌}
use agentguard_action_proxy.Common.Dict.{lookup}
use agentguard_action_proxy.InputControl.Files.{FileReaders, ValueMarks}
use agentguard_action_proxy.InputControl.Files.Response.{FileScanners, FileCall}
use agentguard_action_proxy.InputControl.Files.Service.{post_files_inspect}
use agentguard_action_proxy.InputControl.Files.Unread.{IsWithheld, unread-IsWithheld}

-- The extensions of the samples are their names.
abbrev readers : FileReaders
readers = record {
  normalize_filename = λ name. name;
  extension_of = λ name. name;
  sha256 = λ buf. "hash";
  decode_utf8 = λ buf. buf;
  extract_docx_text = λ buf. none;
  extract_pdf_text = λ buf. none;
  links = λ text. [];
}

abbrev marks : ValueMarks
marks = record { mask = λ type value. "****"; fingerprint = λ value. value }

abbrev scanners : FileScanners
scanners = record {
  scan_prompt = λ text source. [];
  detect_sensitive_data = λ text source. [];
  detect_identities = λ text source metadata. [];
  hidden_signals = λ text source. [];
}

-- The upload of one byte under a name.
abbrev uploading : String → FileCall
uploading name = record {
  policy = record {
    policy_version = "1.1.0";
    scanner_version = "1.0.0";
    max_prompt_length = 20_000;
    rules = [];
  };
  limits = record {
    max_file_bytes = 10_485_760;
    supported_files = (".txt", "text/plain" ∷ []) ∷ (".pdf", "application/pdf" ∷ []) ∷ [];
  };
  uuid = "1";
  clock = λ reading. "now";
  upload = record {
    buf = 65 ∷ [];
    filename = name;
    mimetype = "application/pdf";
    request_id = "file-1";
    destination = none;
  };
}

unlisted : lookup ".exe" (uploading ".exe").limits.supported_files ≡ none
unfolding lookup
unlisted = refl

unread-IsWithheld_example :
    IsWithheld (post_files_inspect readers marks scanners (some (uploading ".exe")) []).1
unread-IsWithheld_example =
    unread-IsWithheld readers marks scanners (uploading ".exe") [] (inr (inl unlisted))

-- ===== src/System/Requests.antt =====
-- src/library/http/http.go: one request, by what the net/http package answers; and the calls of
-- src/library/path/util.go to the file system.
use wing_binlog_go.Prelude.{
  ℕ, ◌≡◌, Bool, true, false, not, Option, none, some, ◌++◌, Bytes, text, ◌==◌, if◌then◌else◌, ◌↔◌,
  arith,
}
use wing_binlog_go.System.Path.{forward_slashes}

-- `Http`
pub record Http : Type 0 where
  pub url : Bytes

-- What the calls of net/http answer: whether the request can be made, the status of the response if
-- there is one, and its body if it can be read.
pub record Answers : Type 0 where
  pub makes : Bytes → Bytes → Bytes → Bool
  pub responds : Bytes → Bytes → Bytes → Option ℕ
  pub body : Bytes → Bytes → Bytes → Option Bytes

abbrev pub status_ok : ℕ
status_ok = 200

module _ (net : Answers) where
  -- `request`; `none` is an error.
  unfoldable pub request : Bytes → Bytes → Bytes → Option Bytes
  request method url content =
      if not (net.makes method url content) then none else elim (net.responds method url content) [
        | none ↦ none
        | some status ↦ if not (status == status_ok) then none else net.body method url content
      ]

  unfoldable pub put : Http → Bytes → Option Bytes
  put h content = request (text "PUT") h.url content

  unfoldable pub post : Http → Bytes → Option Bytes
  post h content = request (text "POST") h.url content

  unfoldable pub get : Http → Option Bytes
  get h = request (text "GET") h.url (text "")

  unfoldable pub delete : Http → Option Bytes
  delete h = request (text "DELETE") h.url (text "")

  -- A request gives the body exactly when it could be made and was answered with 200 and a body that
  -- could be read.
  pub request_iff :
      (method url content res : Bytes)
      → (request method url content ≡ some res) ↔ (
          (net.makes method url content ≡ true)
          × (net.responds method url content ≡ some status_ok)
          × (net.body method url content ≡ some res))
  unfolding request
  request_iff method url content res = ground arith

-- `Exists` of a directory: an error of `os.Stat`, whichever it is, counts as missing.
unfoldable pub dir_exists : (Bytes → Bool) → Bytes → Bool
dir_exists stat dir = stat (forward_slashes dir)

-- `Mkdir`, by whether `os.MkdirAll` fails.
unfoldable pub mkdir : (Bytes → Bool) → Bool → Bytes → Bool
unfolding dir_exists
mkdir stat made dir = if dir_exists stat dir then true else made

-- `Delete`, by whether `os.RemoveAll` fails.
unfoldable pub delete_dir : (Bytes → Bool) → Bool → Bytes → Bool
unfolding dir_exists
delete_dir stat removed dir = if not (dir_exists stat dir) then false else removed

-- `GetCurrentPath`, by the directory of the program; `none` is an error.
unfoldable pub get_current_path : Option Bytes → Bytes
get_current_path none = text ""
get_current_path (some dir) = forward_slashes dir

-- `getWorkingPath`, by the working directory, on a system that separates by slashes.
unfoldable pub get_working_path : Option Bytes → Bytes
get_working_path none = text "/"
get_working_path (some wd) = wd ++ text "/"

-- ===== src/Cli.antt =====
-- tiny_cache/cli.py: the command line client, from the parsed arguments to the exit code. `argparse`
-- is outside; the children say what the server makes of what the client sends.
pub mod Values
pub mod Run
pub mod Sent
pub mod Ends
pub mod Shown
use tiny_cache.Base.{
  ℕ, Text, Text-discrete, codes, Bytes, ℤ, Bool, true, false, ite, ◌&&◌, ◌++◌, Option, none, some,
  List, [], ◌∷◌, if◌then◌else◌, not,
}

-- the choices of `--format`
pub data Format : Type 0 where
  base64 hex utf8 : Format

pub data Command : Type 0 where
  get set set_if_absent compare_and_set delete stats : Command

-- the positional argument and the three options by which one value is given
pub record ValueInput : Type 0 where
  pub positional : Option Text
  pub base64 : Option Text
  pub hex : Option Text
  pub file : Option Text

-- `argparse.Namespace`, with `None` for what a command does not have
pub record Args : Type 0 where
  pub request_id : Option Text
  pub show_request_id : Bool
  pub namespace : Option Text
  pub command : Command
  pub key : Text
  pub format : Format
  pub output : Option Text
  pub value : ValueInput
  pub expected_value : ValueInput
  pub ttl : ℤ

-- A step that may raise; `failed` carries the line that the `except` clauses print.
pub data Attempt {ℓ} (A : Type ℓ) : Type ℓ where
  done : A → Attempt A
  failed : Text → Attempt A

infixl 5 ◌>>=◌
abbrev pub ◌>>=◌ {ℓ κ} : {A : Type ℓ} {B : Type κ} → Attempt A → (A → Attempt B) → Attempt B
done a >>= next = next a
failed line >>= next = failed line

-- What the client takes from outside: files, the codecs of Python's
-- library, and the errors of protobuf. The line of a
-- failure is the one that is printed for its exception.
pub record Outside : Type 0 where
  pub read_bytes : Text → Attempt Bytes
  pub write_bytes : Text → Bytes → Attempt (Unit {0})
  pub b64decode : Text → Attempt Bytes
  pub b64encode : Bytes → Text
  pub fromhex : Text → Attempt Bytes
  pub hex : Bytes → Text
  pub utf8_encode : Text → Attempt Bytes
  pub utf8_decode : Bytes → Attempt Text
  -- the lines for the errors of protobuf: for a string that is no Unicode, if it is none, and for
  -- a TTL that its field does not hold
  pub string_refused : Text → Option Text
  pub out_of_range : ℤ → Text

-- `if text` for an optional text
abbrev pub is_given : Option Text → Bool
is_given none = false
is_given (some []) = false
is_given (some (_ ∷ _)) = true

-- ===== src/Cli/Values.antt =====
-- The values on the command line: which of the ways to give one is taken, and which are refused.
use tiny_cache.Base.{
  Text, codes, Bytes, Bool, false, ◌||◌, ◌++◌, Option, none, some, List, [], ◌∷◌, if◌then◌else◌,
}
use tiny_cache.Cli.{Args, Attempt, done, failed, Command, Format, Outside, ValueInput, is_given}

-- the name of a value: `attr_prefix` with dashes
pub data Label : Type 0 where
  new_value old_value : Label

abbrev pub label_text : Label → Text
label_text Label.new_value = codes "value"
label_text Label.old_value = codes "expected-value"

abbrev pub command_text : Command → Text
command_text Command.get = codes "get"
command_text Command.set = codes "set"
command_text Command.set_if_absent = codes "set-if-absent"
command_text Command.compare_and_set = codes "compare-and-set"
command_text Command.delete = codes "delete"
command_text Command.stats = codes "stats"

-- the text of the error for a value that is not given
abbrev pub value_missing : Command → Label → Text
value_missing command label =
    let name = label_text label in
    command_text command
    ++ codes " requires "
    ++ name
    ++ codes " (positional, --"
    ++ name
    ++ codes "-file, --"
    ++ name
    ++ codes "-base64, or --"
    ++ name
    ++ codes "-hex)"

module _ (outside : Outside) where
  -- the file is read if a name is given that is not empty; the two encodings and the positional
  -- value are taken if they are given at all
  unfoldable pub parse_value_input : Command → Label → ValueInput → Attempt Bytes
  parse_value_input command label input = elim input.file [
    | some (c ∷ name) ↦ outside.read_bytes (c ∷ name)
    | _ ↦ elim input.base64 [
      | some text ↦ outside.b64decode text
      | none ↦ elim input.hex [
        | some text ↦ outside.fromhex text
        | none ↦ elim input.positional [
          | some text ↦ outside.utf8_encode text
          | none ↦ failed (codes "error: " ++ value_missing command label)
        ]
      ]
    ]
  ]

  unfoldable pub encode_output : Bytes → Format → Attempt Text
  encode_output value Format.base64 = done (outside.b64encode value)
  encode_output value Format.hex = done (outside.hex value)
  encode_output value Format.utf8 = outside.utf8_decode value

-- `positional_value is not None and any([file_value, base64_value, hex_value])`
abbrev pub is_conflict : ValueInput → Bool
is_conflict input = elim input.positional [
  | none ↦ false
  | some _ ↦ is_given input.file || (is_given input.base64 || is_given input.hex)
]

abbrev pub conflict_message : Command → Label → Text
conflict_message command label =
    let name = label_text label in
    command_text command
    ++ codes ": positional "
    ++ name
    ++ codes " cannot be combined with --"
    ++ name
    ++ codes "-*"

-- the inputs that a command has
abbrev pub pairs : Args → List (Label × ValueInput)
pairs args = elim args.command [
  | Command.set ↦ (Label.new_value, args.value) ∷ []
  | Command.set_if_absent ↦ (Label.new_value, args.value) ∷ []
  | Command.compare_and_set ↦
      (Label.old_value, args.expected_value) ∷ (Label.new_value, args.value) ∷ []
  | _ ↦ []
]

abbrev pub first_conflict : Command → List (Label × ValueInput) → Option Text
first_conflict command [] = none
first_conflict command ((label, input) ∷ rest) =
    if is_conflict input then some (conflict_message command label) else first_conflict command rest

-- the message of `parser.error`, which ends the process
unfoldable pub validate_value_args : Args → Option Text
validate_value_args args = first_conflict args.command (pairs args)

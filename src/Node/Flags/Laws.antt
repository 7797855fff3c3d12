-- ===== src/Node/Flags/Laws.antt =====
-- The flags that are read against the flags that are declared.
use blockless_avs_tools.Base.{
  ◌≡◌, refl, ℕ, String, List, [], ◌∷◌, Bool, true, false, ◌&&◌, ◌||◌, ◌==◌, string_eq,
  if◌then◌else◌,
}
use blockless_avs_tools.Node.Flags.{
  Value, text, uint, boolean, texts, int64, float64, Flag, node_flags, server_flags, Context,
  parse_flags,
}

-- A flag of the name and of the type of the value.
abbrev same_type : Value → Value → Bool
same_type (text _) (text _) = true
same_type (uint _) (uint _) = true
same_type (boolean _) (boolean _) = true
same_type (texts _) (texts _) = true
same_type (int64 _) (int64 _) = true
same_type (float64 _) (float64 _) = true
same_type _ _ = false

abbrev declares : List Flag → String → Value → Bool
declares [] name value = false
declares (f ∷ flags) name value =
    (f.name == name && same_type f.value value) || declares flags name value

-- A context that gives the zero value for a flag that is not declared at the type it is read.
abbrev declared : List Flag → Context → Context
declared flags c = record {
  string = λ n. if declares flags n (text "") then c.string n else "";
  uint_of = λ n. if declares flags n (uint 0) then c.uint_of n else 0;
  bool_of = λ n. if declares flags n (boolean false) then c.bool_of n else false;
  string_slice = λ n. if declares flags n (texts []) then c.string_slice n else [];
}

-- ParseFlags reads only flags that flags.go declares, each at its type.
pub parse_flags-node_flags :
    (label : String) (concurrency : ℕ) (c : Context)
    → parse_flags (declared (node_flags label concurrency) c) ≡ parse_flags c
unfolding parse_flags
parse_flags-node_flags label concurrency c = refl

-- They are among those of serverFlags too, at the same types.
pub parse_flags-server_flags :
    (concurrency : ℕ) (c : Context)
    → parse_flags (declared (server_flags concurrency) c) ≡ parse_flags c
unfolding parse_flags
parse_flags-server_flags concurrency c = refl

-- The value of the flag workspace makes no difference to the configuration.
pub parse_flags-workspace :
    (workspace : String) (c : Context)
    → parse_flags (record c { string = λ n. if n == "workspace" then workspace else c.string n })
      ≡ parse_flags c
unfolding parse_flags
parse_flags-workspace workspace c = refl

-- ===== src/Brain/Values.antt =====
-- The values of a transaction's context, which are JSON, and Python's operations on texts. A text is
-- the list of its code points.
use Prim.Native.Char.{code}
use Prim.Native.String.{String}
use fielded_online.Common.{
  ℕ, Bool, true, false, ◌&&◌, ◌||◌, List, [], ◌∷◌, Option, none, some, ◌==◌, if◌then◌else◌,
}

abbrev pub Text : Type 0
Text = List ℕ

abbrev pub Number : Type 0
Number = ℕ

-- A number is known by a key alone: what it amounts to is a matter of `Python`.
mutual
  pub data Value : Type 0 where
    null : Value
    boolean : Bool → Value
    number : Number → Value
    text : Text → Value
    array : Values → Value
    object : Fields → Value

  pub data Values : Type 0 where
    nil : Values
    cons : Value → Values → Values

  pub data Fields : Type 0 where
    end : Fields
    field : Text → Value → Fields → Fields

-- What `float` makes of a value: a number; a TypeError or ValueError; or another exception, as the
-- OverflowError of an integer that is too large.
pub data Conversion (F : Type 0) : Type 0 where
  converted : F → Conversion F
  refused : Conversion F
  raises : Conversion F

-- What the conditions ask of Python: `==` of values, `float` and the order of floats, `str`, and
-- whether re.search finds a pattern, `none` for re.error.
pub record Python : Type 1 where
  pub Float : Type 0
  pub float : Value → Conversion Float
  pub float_zero : Float
  pub float_lt : Float → Float → Bool
  pub float_le : Float → Float → Bool
  pub eq : Value → Value → Bool
  pub str : Value → Text
  pub search : Text → Text → Option Bool

unfoldable pub same_text : Text → Text → Bool
same_text [] [] = true
same_text [] (d ∷ t) = false
same_text (c ∷ s) [] = false
same_text (c ∷ s) (d ∷ t) = c == d && same_text s t

-- text.startswith(prefix)
unfoldable pub starts_with : Text → Text → Bool
starts_with s [] = true
starts_with [] (d ∷ t) = false
starts_with (c ∷ s) (d ∷ t) = c == d && starts_with s t

-- text.endswith(suffix)
unfoldable pub ends_with : Text → Text → Bool
unfolding same_text
ends_with [] t = same_text [] t
ends_with (c ∷ s) t = same_text (c ∷ s) t || ends_with s t

-- part in text
unfoldable pub contains : Text → Text → Bool
unfolding starts_with
contains [] t = starts_with [] t
contains (c ∷ s) t = starts_with (c ∷ s) t || contains s t

-- text.split(sep), for one character: at least one part.
abbrev into_first : ℕ → List Text → List Text
into_first c [] = (c ∷ []) ∷ []
into_first c (part ∷ parts) = (c ∷ part) ∷ parts

unfoldable pub split : ℕ → Text → List Text
split sep [] = [] ∷ []
split sep (c ∷ s) = let rest = split sep s in if c == sep then [] ∷ rest else into_first c rest

-- `key in fields`, and then `fields[key]`.
unfoldable pub lookup : Text → Fields → Option Value
unfolding same_text
lookup key end = none
lookup key (field name value rest) = if same_text name key then some value else lookup key rest

-- One turn of the loop of DecisionContext.get_value; None is the answer for a missing key.
unfoldable pub get_part : Text → Value → Option Value
unfolding lookup
get_part part (object fields) = lookup part fields
get_part part null = none
get_part part (boolean b) = none
get_part part (number n) = none
get_part part (text t) = none
get_part part (array values) = none

abbrev or_null : Option Value → (Value → Value) → Value
or_null none f = null
or_null (some v) f = f v

unfoldable pub get_parts : List Text → Value → Value
unfolding get_part
get_parts [] current = current
get_parts (part ∷ parts) current = or_null (get_part part current) (get_parts parts)

-- DecisionContext.get_value, with the dot for a separator.
unfoldable pub get_value : Text → Value → Value
unfolding get_parts split
get_value path context_data = get_parts (split b'.' path) context_data

-- The code points of a key.
abbrev pub codes : String → Text
codes String.[] = []
codes (String.◌∷◌ c s) = code c ∷ codes s

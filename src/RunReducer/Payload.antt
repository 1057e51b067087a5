-- ===== src/RunReducer/Payload.antt =====
-- What apps/next/src/features/chat/lib/runReducer.ts reads from the untyped payload of an event. A
-- field that is missing is `none`; numbers are natural.
use Prim.Native.String.{String}
use modular_agentic_system.Base.{
  ℕ, true, false, List, [], ◌∷◌, ◌++◌, Option, none, some, Text, codes, ◌==◌, if◌then◌else◌,
}
use modular_agentic_system.Base.Decimal.{decimal}
use modular_agentic_system.Events.{
  Json, null, boolean, number, string, array, object, Items, nil, cons, Fields, end, field,
}

unfoldable pub get : Text → Fields → Option Json
unfolding ◌==◌
get k end = none
get k (field j v fs) = if j == k then some v else get k fs

-- `asRecord`: an array has none of the names that are read.
abbrev pub as_record : Option Json → Fields
as_record (some (object fs)) = fs
as_record _ = end

-- A field that is a string, the empty one included.
abbrev pub text_field : Option Json → Option Text
text_field (some (string s)) = some s
text_field _ = none

-- `str`
abbrev pub str : Option Json → Option Text
str (some (string (c ∷ s))) = some (c ∷ s)
str _ = none

abbrev pub number_field : Option Json → Option ℕ
number_field (some (number n)) = some n
number_field _ = none

abbrev pub array_field : Option Json → Option Items
array_field (some (array xs)) = some xs
array_field _ = none

-- `a ?? b` passes over `null` too.
abbrev pub present : Option Json → Option Json
present (some null) = none
present o = o

-- `xs.filter((x): x is string => typeof x === 'string')`
unfoldable pub strings_of : Items → List Text
strings_of nil = []
strings_of (cons (string s) xs) = s ∷ strings_of xs
strings_of (cons v xs) = strings_of xs

-- In an array `null` is printed as nothing.
abbrev element : Json → Text → Text
element null printed = []
element _ printed = printed

-- `String(v)`
unfoldable mutual
  pub text_of_json : Json → Text
  text_of_json null = codes "null"
  text_of_json (boolean true) = codes "true"
  text_of_json (boolean false) = codes "false"
  text_of_json (number n) = decimal n
  text_of_json (string s) = s
  text_of_json (array xs) = joined xs
  text_of_json (object fs) = codes "[object Object]"

  pub joined : Items → Text
  joined nil = []
  joined (cons v nil) = element v (text_of_json v)
  joined (cons v (cons w xs)) = element v (text_of_json v) ++ (codes "," ++ joined (cons w xs))

-- `d.key`
abbrev pub at : Fields → String → Option Json
at d key = get (codes key) d

-- ===== src/Mongo/Documents.antt =====
-- The documents of the MongoDB backend (src/db/mongo.cpp), and what a selector, an order and an update
-- of MongoDB mean on them. A field that is missing counts as null. Texts are compared byte by byte.
use dazeus_core.Base.{
  Bool, true, false, not, ◌&&◌, ◌||◌, List, [], ◌∷◌, ◌++◌, Option, none, some, if◌then◌else◌,
}
use dazeus_core.Text.{Str, str_eq, str_lt, lit}

pub data Field : Type 0 where
  null : Field
  text : Str → Field
  boolean : Bool → Field

abbrev pub Document : Type 0
Document = List (Str × Field)

-- `one_of` is `{'$in': [text, null]}`
pub data Condition : Type 0 where
  equals : Field → Condition
  one_of regex : Str → Condition

abbrev pub Selector : Type 0
Selector = List (Str × Condition)

unfoldable pub field : Str → Document → Field
field name [] = null
field name ((known, value) ∷ rest) =
    let later = field name rest in if str_eq known name then value else later

unfoldable pub field_eq : Field → Field → Bool
field_eq null null = true
field_eq (text a) (text b) = str_eq a b
field_eq (boolean a) (boolean b) = if a then b else not b
field_eq _ _ = false

-- null before texts before Booleans
unfoldable pub field_lt : Field → Field → Bool
field_lt null null = false
field_lt null _ = true
field_lt (text a) (text b) = str_lt a b
field_lt (text a) (boolean b) = true
field_lt (boolean a) (boolean b) = not a && b
field_lt _ _ = false

unfoldable pub lex : Field → Field → Bool → Bool
unfolding field_eq field_lt
lex a b later = if field_eq a b then later else field_lt a b

-- the order by network, receiver and sender
unfoldable pub comes_before : Document → Document → Bool
unfolding field lex lit
comes_before x y = lex (field (lit "network") x) (field (lit "network") y) (
    lex (field (lit "receiver") x) (field (lit "receiver") y)
      (field_lt (field (lit "sender") x) (field (lit "sender") y)))

-- `matches` is how the server reads a regular expression
unfoldable pub meets : (Str → Str → Bool) → Condition → Field → Bool
unfolding field_eq
meets matches (equals wanted) found = field_eq found wanted
meets matches (one_of wanted) found = field_eq found (text wanted) || field_eq found null
meets matches (regex pattern) (text found) = matches pattern found
meets matches (regex pattern) _ = false

unfoldable pub selects : (Str → Str → Bool) → Selector → Document → Bool
unfolding meets field
selects matches [] document = true
selects matches ((name, condition) ∷ rest) document =
    meets matches condition (field name document) && selects matches rest document

-- the first document that is selected is changed, or there is none
unfoldable pub change_first :
    (Document → Bool) → (Document → Document) → List Document → Option (List Document)
change_first p f [] = none
change_first p f (x ∷ xs) =
    let later = change_first p f xs in
    if p x then some (f x ∷ xs) else elim later [ none ↦ none | some ys ↦ some (x ∷ ys) ]

-- `$set`
unfoldable pub set_field : Str → Field → Document → Document
set_field name value [] = (name, value) ∷ []
set_field name value ((known, old) ∷ rest) =
    let later = set_field name value rest in
    if str_eq known name then (known, value) ∷ rest else (known, old) ∷ later

-- the document that an upsert begins with
unfoldable pub from_selector : Selector → Document
from_selector [] = []
from_selector ((name, equals value) ∷ rest) = (name, value) ∷ from_selector rest
from_selector ((name, _) ∷ rest) = from_selector rest

-- an update with the flag UPSERT: one document that is selected is changed, or `fresh` is stored
unfoldable pub upsert :
    (Document → Bool) → (Document → Document) → Document → List Document → List Document
unfolding change_first
upsert p f fresh documents = elim (change_first p f documents) [
  | none ↦ documents ++ fresh ∷ []
  | some changed ↦ changed
]

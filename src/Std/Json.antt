-- ===== src/Std/Json.antt =====
-- What the program uses of encoding/json: values as trees, and Unmarshal into the fields of a struct.
-- A value of a raw message is the tree of its text; printing and parsing text are parameters.
pub mod Decode
use tenant_deck.Base.{Bool, String, List, [], ◌∷◌}

-- A number keeps its literal.
mutual
  pub data Json : Type 0 where
    null : Json
    bool : Bool → Json
    num : String → Json
    str : String → Json
    arr : Items → Json
    obj : Fields → Json

  pub data Items : Type 0 where
    nil : Items
    cons : Json → Items → Items

  pub data Fields : Type 0 where
    end : Fields
    field : String → Json → Fields → Fields

abbrev pub items : List Json → Items
items [] = nil
items (v ∷ vs) = cons v (items vs)

abbrev pub item_list : Items → List Json
item_list nil = []
item_list (cons v vs) = v ∷ item_list vs

abbrev pub fields : List (String × Json) → Fields
fields [] = end
fields ((k, v) ∷ ps) = field k v (fields ps)

abbrev pub field_list : Fields → List (String × Json)
field_list end = []
field_list (field k v fs) = (k, v) ∷ field_list fs

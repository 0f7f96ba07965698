-- ===== src/Common/Json.antt =====
-- JSON values, and the text that `json.dumps(value, indent=2, sort_keys=True)` makes of one. There
-- are no floats: a quotient of integers is kept as the two, and its text is a parameter.
use Prim.Native.Nat.{ℕ, zero, suc, ◌+◌, ◌-◌, ◌/◌, ◌%◌}
use mathlib.Core.Bool.{Bool, true, false, ◌&&◌}
use mathlib.Core.List.{List, [], ◌∷◌, ◌++◌}
use postal_dnsbl_monitor.Common.Tests.{◌==◌, ltb, leb, if◌then◌else◌}
use postal_dnsbl_monitor.Common.Text.{Str, codes}
use postal_dnsbl_monitor.Common.Order.{leb_str}
use postal_dnsbl_monitor.Common.Int.{ℤ}
use postal_dnsbl_monitor.Common.Show.{show_ℤ}

mutual
  pub data Json : Type 0 where
    null : Json
    boolean : Bool → Json
    int : ℤ → Json
    quotient : ℕ → ℕ → Json
    text : Str → Json
    array : JsonArray → Json
    object : JsonObject → Json

  pub data JsonArray : Type 0 where
    empty : JsonArray
    item : Json → JsonArray → JsonArray

  pub data JsonObject : Type 0 where
    bare : JsonObject
    field : Str → Json → JsonObject → JsonObject

abbrev pub array_of : List Json → JsonArray
array_of [] = empty
array_of (j ∷ js) = item j (array_of js)

-- a dict with the keys in this order; no key stands twice
abbrev pub object_of : List (Str × Json) → JsonObject
object_of [] = bare
object_of ((k, j) ∷ d) = field k j (object_of d)

unfoldable pub insert_field : Str → Json → JsonObject → JsonObject
insert_field k j bare = field k j bare
insert_field k j (field l i o) =
    let rest = insert_field k j o in if leb_str k l then field k j (field l i o) else field l i rest

-- The value with the keys of every object in ascending order.
unfoldable mutual
  unfolding insert_field

  pub sort_keys : Json → Json
  sort_keys null = null
  sort_keys (boolean b) = boolean b
  sort_keys (int n) = int n
  sort_keys (quotient n d) = quotient n d
  sort_keys (text s) = text s
  sort_keys (array js) = array (sort_items js)
  sort_keys (object o) = object (sort_fields o)

  pub sort_items : JsonArray → JsonArray
  sort_items empty = empty
  sort_items (item j js) = item (sort_keys j) (sort_items js)

  pub sort_fields : JsonObject → JsonObject
  sort_fields bare = bare
  sort_fields (field k j o) = insert_field k (sort_keys j) (sort_fields o)

abbrev pub hex_digit : ℕ → ℕ
hex_digit n = if ltb n 10 then b'0' + n else b'a' + (n - 10)

-- the escape of one code unit
unfoldable pub hex_escape : ℕ → Str → Str
hex_escape n rest =
    92
    ∷ b'u'
    ∷ hex_digit (n / 4096 % 16)
    ∷ hex_digit (n / 256 % 16)
    ∷ hex_digit (n / 16 % 16)
    ∷ hex_digit (n % 16)
    ∷ rest

-- one character of a text, and what follows it
unfoldable pub escaped : ℕ → Str → Str
unfolding hex_escape
escaped c rest =
    if c == 34
    then 92 ∷ 34 ∷ rest
    else if c == 92
    then 92 ∷ 92 ∷ rest
    else if c == 10
    then 92 ∷ b'n' ∷ rest
    else if c == 13
    then 92 ∷ b'r' ∷ rest
    else if c == 9
    then 92 ∷ b't' ∷ rest
    else if c == 12
    then 92 ∷ b'f' ∷ rest
    else if c == 8
    then 92 ∷ b'b' ∷ rest
    else if leb 32 c && leb c 126
    then c ∷ rest
    else if ltb c 0x10000
    then hex_escape c rest
    else hex_escape (0xd800 + (c - 0x10000) / 0x400 % 0x400)
        (hex_escape (0xdc00 + (c - 0x10000) % 0x400) rest)

unfoldable pub escaped_all : Str → Str
unfolding escaped
escaped_all [] = 34 ∷ []
escaped_all (c ∷ s) = escaped c (escaped_all s)

-- the literal of a text
unfoldable pub literal : Str → Str
unfolding escaped_all
literal s = 34 ∷ escaped_all s

unfoldable pub spaces : ℕ → Str
spaces zero = []
spaces (suc n) = 32 ∷ 32 ∷ spaces n

-- a new line at a level of indentation
abbrev newline : ℕ → Str
newline level = 10 ∷ spaces level

module _ (float_repr : ℕ → ℕ → Str) where
  unfoldable mutual
    unfolding literal spaces

    pub print : ℕ → Json → Str
    print level null = codes "null"
    print level (boolean true) = codes "true"
    print level (boolean false) = codes "false"
    print level (int n) = show_ℤ n
    print level (quotient n d) = float_repr n d
    print level (text s) = literal s
    print level (array empty) = codes "[]"
    print level (array (item j js)) =
        b'['
        ∷ (newline (level + 1)
            ++ (print_items (level + 1) (item j js) ++ (newline level ++ (b']' ∷ []))))
    print level (object bare) = codes "{}"
    print level (object (field k j o)) =
        b'{'
        ∷ (newline (level + 1)
            ++ (print_fields (level + 1) (field k j o) ++ (newline level ++ (b'}' ∷ []))))

    pub print_items : ℕ → JsonArray → Str
    print_items level empty = []
    print_items level (item j empty) = print level j
    print_items level (item j (item k js)) =
        print level j ++ (b',' ∷ (newline level ++ print_items level (item k js)))

    pub print_fields : ℕ → JsonObject → Str
    print_fields level bare = []
    print_fields level (field k j bare) = literal k ++ (b':' ∷ 32 ∷ print level j)
    print_fields level (field k j (field l i o)) =
        literal k
        ++ (b':'
            ∷ 32
            ∷ (print level j ++ (b',' ∷ (newline level ++ print_fields level (field l i o)))))

  -- `json.dumps(value, indent=2, sort_keys=True)`
  unfoldable pub dumps : Json → Str
  unfolding sort_keys print
  dumps value = print 0 (sort_keys value)

-- ===== src/Processes/Ports.antt =====
-- wings/processes.py: the ports that a server publishes, `_publishes` and `_port_number`.
use pywings.Prelude.{
  ℕ, Bool, not, ◌&&◌, ◌||◌, ◌++◌, Option, none, some, List, [], ◌∷◌, leb, Text, lit, text_eq,
  has_char, split, if◌then◌else◌,
}
use pywings.Prelude.Patterns.{run}
use pywings.Json.{
  Json, null, str, arr, obj, Items, nil, cons, Fields, end, field, get_field, get_or_null, truthy,
  or_else,
}
use pywings.Json.Printed.{text_of}
use pywings.Result.{Result, ok, err, value_error, ◌>>=◌, ◌>>◌, ensure}
use pywings.Numbers.{plus, is_digit, natural, whole_text}

-- The digits from the first digit on.
unfoldable pub first_digits : Text → Text
unfolding run
first_digits [] = []
first_digits (c ∷ s) =
    let rest = first_digits s in if is_digit c then (run is_digit (c ∷ s)).0 else rest

abbrev pub no_integers : {A : Type 0} → Result A
no_integers = err (value_error (lit "server port mappings must contain integers"))

-- `_port_number`
unfoldable pub port_number : Json → Result ℕ
unfolding first_digits natural text_of
port_number value = elim (natural (first_digits (text_of value))) [
  | none ↦ no_integers
  | some n ↦ ok n
]

abbrev pub items_of : Fields → Items
items_of end = nil
items_of (field k v fs) = cons v (items_of fs)

abbrev pub entry : Text → Json → Json
entry address port = obj (
    field (lit "ip") (str address)
      (field (lit "host_port") port (field (lit "container_port") port end)))

abbrev pub entries_of : Text → Items → Items → Items
entries_of address nil rest = rest
entries_of address (cons v vs) rest = cons (entry address v) (entries_of address vs rest)

-- The ports of each address.
unfoldable pub expanded : Fields → Items
expanded end = nil
expanded (field address (arr vs) fs) = entries_of address vs (expanded fs)
expanded (field address v fs) = cons (entry address v) (expanded fs)

-- The first of two keys with a value that is not None, and else all values of the allocations.
unfoldable pub chosen : Fields → Json
chosen fs = elim (get_or_null (lit "mappings") fs) [
  | null ↦ elim (get_or_null (lit "ports") fs) [
    | null ↦ elim (get_or_null (lit "default") fs) [
      | null ↦ arr (items_of fs)
      | v ↦ arr (cons v nil)
    ]
    | v ↦ v
  ]
  | v ↦ v
]

unfoldable pub listed : Json → Items
listed (arr vs) = vs
listed (obj fs) = expanded fs
listed v = cons v nil

unfoldable pub port_items : Fields → Items
unfolding chosen listed get_or_null truthy
port_items conf =
    elim (or_else (get_or_null (lit "ports") conf)
      (or_else (get_or_null (lit "allocations") conf) (arr nil))) [
        | obj fs ↦ listed (chosen fs)
        | v ↦ listed v
      ]

-- d.get(k, default)
unfoldable pub get_or : Text → Json → Fields → Json
get_or k default fs = elim (get_field k fs) [ none ↦ default | some v ↦ v ]

-- The first element of a list, where a value is one.
abbrev pub first_or : Json → Json → Json
first_or default (arr nil) = default
first_or default (arr (cons v vs)) = v
first_or default v = v

unfoldable pub ends_of : Json → Json × Json
unfolding get_or
ends_of (obj fs) =
    let host = get_or (lit "host_port") (get_or_null (lit "port") fs) fs in
    let container = get_or (lit "container_port") (get_or (lit "port") host fs) fs in
    (first_or null host, first_or (first_or null host) container)
ends_of v = (first_or null v, first_or (first_or null v) v)

-- A text of two or three pieces gives both ends.
abbrev pub pieces_of : Text → Text × List Text → Json × Json
pieces_of s (a, b ∷ []) = (str a, str b)
pieces_of s (a, b ∷ c ∷ []) = (str b, str c)
pieces_of s more = (str s, str s)

unfoldable pub mapped : Json × Json → Json × Json
unfolding has_char text_eq split
mapped (str s, str t) =
    if has_char b':' s && text_eq t s then pieces_of s (split b':' s) else (str s, str t)
mapped pair = pair

unfoldable pub is_port : ℕ → Bool
is_port n = leb 1 n && leb n 65535

unfoldable pub is_any_address : Text → Bool
unfolding text_eq
is_any_address s = text_eq s (lit "0.0.0.0") || text_eq s (lit "::") || text_eq s (lit "*")

abbrev pub address_of : Json → Json
address_of (obj fs) = get_or_null (lit "ip") fs
address_of v = null

-- f"{address}:{host}:{container}", without the address where there is none.
unfoldable pub publish_text : Option Text → ℕ → ℕ → Text
unfolding whole_text
publish_text none host container = whole_text (plus host) ++ (b':' ∷ whole_text (plus container))
publish_text (some address) host container =
    address ++ (b':' ∷ (whole_text (plus host) ++ (b':' ∷ whole_text (plus container))))

-- `ip_address` is str(ipaddress.ip_address(text)), and none is its ValueError.
module _ (ip_address : Text → Option Text) where
  unfoldable pub checked_address : Json → Result (Option Text)
  unfolding truthy is_any_address text_of
  checked_address v =
      if truthy v && not (is_any_address (text_of v))
      then elim (ip_address (text_of v)) [
        | none ↦ err (value_error (lit "server allocation ip must be a valid IP address"))
        | some address ↦ ok (some address)
      ]
      else ok none

  -- One round of the loop.
  unfoldable pub publish_item : Json → Result Text
  unfolding ends_of mapped
  publish_item item =
      let (a, b) = mapped (ends_of item) in
      do
        host ← port_number a
        container ← port_number b
        ensure (is_port host && is_port container)
            (value_error (lit "server ports must be between 1 and 65535"))
        address ← checked_address (address_of item)
        ok (publish_text address host container)

  unfoldable pub publish_items : Items → Result (List Text)
  publish_items nil = ok []
  publish_items (cons v vs) = do p ← publish_item v; ps ← publish_items vs; ok (p ∷ ps)

  -- `_publishes`
  unfoldable pub publishes : Fields → Result (List Text)
  unfolding publish_items port_items
  publishes conf = publish_items (port_items conf)

-- ===== src/Processes/Published.antt =====
-- The port mappings of a configuration that `_publishes` accepts.
use pywings.Prelude.{ℕ, ◌≡◌, refl, ◌≤◌, true, ◌&&◌, Option, List, All, Text, Bool, false, arith}
use mathlib.Core.Path.{subst}
use pywings.Json.{Json, Items, nil, cons, Fields}
use pywings.Result.{IfOk, Error, ok, ensure, >>=-eq-ok}
use pywings.Processes.Ports.{
  port_number, mapped, ends_of, is_port, publish_text, checked_address, address_of, publish_item,
  publish_items, port_items, publishes,
}

-- A mapping of one port to another, each between 1 and 65535, with or without an address.
pub record IsPublish (p : Text) : Type 0 where
  pub address : Option Text
  pub host : ℕ
  pub container : ℕ
  pub text : p ≡ publish_text address host container
  pub host_bounds : (1 ≤ host) × (host ≤ 65535)
  pub container_bounds : (1 ≤ container) × (container ≤ 65535)

is_port-bounds : (n : ℕ) → is_port n ≡ true → (1 ≤ n) × (n ≤ 65535)
unfolding is_port
is_port-bounds n h = ground arith

ensure-ok : (b : Bool) (e : Error) {u : Unit {0}} → ensure b e ≡ ok u → b ≡ true
ensure-ok true e h = refl
ensure-ok false e h = cc

both-ports : (a b : ℕ) → (is_port a && is_port b) ≡ true → (is_port a ≡ true) × (is_port b ≡ true)
both-ports a b h = ground arith

module _ (ip_address : Text → Option Text) where
  publish_item-IsPublish :
      (item : Json) {p : Text} → publish_item ip_address item ≡ ok p → IsPublish p
  unfolding publish_item
  publish_item-IsPublish item h =
      let pair = mapped (ends_of item) in
      let (host, e, h1) = >>=-eq-ok (port_number pair.0) _ h in
      let (container, f, h2) = >>=-eq-ok (port_number pair.1) _ h1 in
      let (u, g, h3) = >>=-eq-ok (ensure (is_port host && is_port container) _) _ h2 in
      let (address, k, h4) = >>=-eq-ok (checked_address ip_address (address_of item)) _ h3 in
      let (first, second) = both-ports host container (ensure-ok _ _ g) in
      record {
        address = address;
        host = host;
        container = container;
        text = cc;
        host_bounds = is_port-bounds host first;
        container_bounds = is_port-bounds container second;
      }

  publish_items-IsPublish :
      (items : Items) {ps : List Text} → publish_items ip_address items ≡ ok ps → All IsPublish ps
  unfolding publish_items IfOk
  publish_items-IsPublish nil h = subst (IfOk (All IsPublish)) h tt
  publish_items-IsPublish (cons item items) h =
      let (p, e, h1) = >>=-eq-ok (publish_item ip_address item) _ h in
      let (ps, f, h2) = >>=-eq-ok (publish_items ip_address items) _ h1 in
      subst (IfOk (All IsPublish)) h2
        (publish_item-IsPublish item e, publish_items-IsPublish items f)

  -- Where `_publishes` accepts a configuration, each mapping that it gives is two ports between 1 and
  -- 65535 that are written in decimal with a colon, behind an address and a colon or behind nothing.
  pub publishes-IsPublish :
      (conf : Fields) {ps : List Text} → publishes ip_address conf ≡ ok ps → All IsPublish ps
  unfolding publishes
  publishes-IsPublish conf h = publish_items-IsPublish (port_items conf) h

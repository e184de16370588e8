-- ===== src/Distribution/Interval.antt =====
-- The end of an interval, `onIntervalExpired` of c-http-sniffer/src/metrics/client.cpp, reqPath.cpp and
-- reqMethod.cpp with `cfl_delete` of src/cf_list.c.

use monitoring_tool.Prelude.{
  ℕ, zero, suc, ◌+◌, ◌≤◌, ◌<◌, ◌≡◌, refl, sym, ap, ◌∙◌, Option, some, List, [], ◌∷◌, arith, length,
  length-set, length-take, take, drop, set, get_elem?,
}
use monitoring_tool.HashTable.{Node}
use monitoring_tool.HashTable.Sums.{nodes_of, occurrences}
use monitoring_tool.Distribution.{
  CfItem, CfList, blank, freed_name, delete_loop, cfl_delete, Distribution, cfl_update,
  on_interval_expired,
}
use monitoring_tool.Distribution.Reports.{
  HoldsItems, items_of, items-room, update_buckets-HoldsItems,
}

abbrev pub names_of : List CfItem → List (Option (List ℕ))
names_of [] = []
names_of (item ∷ items) = item.name ∷ names_of items

drop-set :
    (i : ℕ) (list : List CfItem) (v : CfItem) → drop (suc i) (set list i v) ≡ drop (suc i) list
drop-set i [] v = refl
drop-set zero (x ∷ list) v = refl
drop-set (suc i) (x ∷ list) v = drop-set i list v

-- An item that is there, and the list from it on.
item_at :
    (i : ℕ) (list : List CfItem)
    → i < length list
    → (x : CfItem) × (get_elem? list i ≡ some x) × (drop i list ≡ x ∷ drop (suc i) list)
item_at i [] h = absurd (omega (arith, h))
item_at zero (x ∷ list) h = (x, refl, refl)
item_at (suc i) (x ∷ list) h = item_at i list (omega (arith, h))

-- Each name is freed once, and the array stays as long as it is.
delete_loop-names :
    (n i : ℕ) (list : List CfItem)
    → i + n ≤ length list
    → ((delete_loop n i list).1 ≡ names_of (take n (drop i list)))
      × (length (delete_loop n i list).0 ≡ length list)
unfolding delete_loop
delete_loop-names zero i list h = (refl, refl)
delete_loop-names (suc n) i list h =
    let (x, at, from) = item_at i list (omega (arith, h)) in
    let fits : suc i + n ≤ length (set list i blank) = omega (arith, h, length-set list i blank) in
    let (names, room) = delete_loop-names n (suc i) (set list i blank) fits in
    (
      ap (λ (o : Option CfItem). freed_name o (delete_loop n (suc i) (set list i blank)).1) at
          ∙ (ap (λ (l : List (Option (List ℕ))). x.name ∷ l)
                (names ∙ ap (λ (l : List CfItem). names_of (take n l)) (drop-set i list blank))
              ∙ ap (λ (l : List CfItem). names_of (take (suc n) l)) (sym from)),
      room ∙ length-set list i blank,
    )

cfl_delete-HoldsItems :
    (cfl : CfList) (xs : List CfItem)
    → HoldsItems cfl xs
    → HoldsItems (cfl_delete cfl).0 [] × ((cfl_delete cfl).1 ≡ names_of xs)
unfolding cfl_delete
cfl_delete-HoldsItems cfl xs h =
    let fits : 0 + cfl.count ≤ length cfl.list =
      omega (arith, h.count, h.room, ap length h.items, length-take cfl.count cfl.list) in
    let (names, room) = delete_loop-names cfl.count 0 cfl.list fits in
    (
      record { size = h.size; room = room ∙ h.room; count = refl; items = refl },
      names ∙ ap names_of h.items,
    )

-- The nodes of a distribution's table.
abbrev pub nodes : {V : Type 0} → Distribution V → List (Node V)
nodes d = nodes_of d.ht.size 0 d.ht.buckets

-- In a distribution whose values have occurred no more often in all than requests were received, with an
-- empty list, the end of an interval reports exactly the values of the table that make up more than a
-- hundredth of the requests, in the order of the buckets, each with its number of occurrences and the
-- number of requests: the list of 100 items never leaves one out. Each name that is reported is freed
-- once, and the list is empty again; table and number of requests stay as they are, so that the next
-- report is about this interval too.
pub on_interval_expired-reports :
    {V : Type 0} (name_of : V → List ℕ) (d : Distribution V)
    → HoldsItems d.cfl []
    → occurrences (nodes d) ≤ d.req_total
    → let (after, reported, freed) = on_interval_expired name_of d in
      (reported ≡ items_of name_of d.req_total (nodes d))
      × (freed ≡ names_of reported)
      × HoldsItems after.cfl []
      × (after.ht ≡ d.ht)
      × (after.req_total ≡ d.req_total)
unfolding on_interval_expired
on_interval_expired-reports name_of d h le =
    let room = items-room name_of d.req_total (nodes d) le in
    let updated =
      update_buckets-HoldsItems name_of d.req_total d.ht.size 0 d.ht.buckets d.cfl [] h
        (omega (arith, room)) in
    let (empty, names) =
      cfl_delete-HoldsItems (cfl_update name_of d) (items_of name_of d.req_total (nodes d))
        updated in
    (updated.items, names ∙ ap names_of (sym updated.items), empty, refl, refl)

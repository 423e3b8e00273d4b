-- ===== src/SkipList/Exchange.antt =====
-- The loads, stores and exchanges of links of lab4/SkipList.c at an allocated tower.
use distibuted_sys.Base.{ℕ, ◌≤◌, ◌≡◌, true, Option, some, arith}
use distibuted_sys.SkipList.{
  Ptr, Link, link, Tower, Memory, done, put, set_forward, load_link, store_link, exchange_link,
}

pub load_link-some :
    (p : Ptr) (n : ℕ) (m : Memory) (t : Tower)
    → m.tower p ≡ some t
    → n ≤ t.level
    → load_link p n m ≡ done (t.forward n) m
unfolding load_link
load_link-some p n m t at h = ground (arith, at)

abbrev pub with_forward : Tower → ℕ → Link → Option Tower
with_forward t n l = some (record t { forward = set_forward t.forward n l })

pub store_link-some :
    (p : Ptr) (n : ℕ) (l : Link) (m : Memory) (t : Tower)
    → m.tower p ≡ some t
    → n ≤ t.level
    → store_link p n l m ≡ done tt (record m { tower = put m.tower p (with_forward t n l) })
unfolding store_link
store_link-some p n l m t at h = ground (arith, at)

pub exchange_link-some :
    (p q : Ptr) (n : ℕ) (l : Link) (m : Memory) (t : Tower)
    → m.tower p ≡ some t
    → n ≤ t.level
    → t.forward n ≡ link q
    → exchange_link p n (link q) l m
      ≡ done (true, link q) (record m { tower = put m.tower p (with_forward t n l) })
unfolding exchange_link load_link
exchange_link-some p q n l m t at h e = ground (arith, at, e, store_link-some p n l m t at h)

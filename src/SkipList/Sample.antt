-- ===== src/SkipList/Sample.antt =====
-- A small skip list of lab4/SkipList.c, for the runs of its functions.
use distibuted_sys.Base.{
  refl, false, none, some, List, [], ◌∷◌, arith, ◌==◌, if◌then◌else◌, replicate,
}
use distibuted_sys.Base.Int.{pos, minus_one}
use distibuted_sys.SkipList.{null, header, link, no_error, Tower, Memory}
use distibuted_sys.SkipList.Access.{Outside}
use distibuted_sys.SkipList.Lifetime.{key_min}
use distibuted_sys.SkipList.Items.{Item, next_at}
use distibuted_sys.SkipList.Walk.{IsSkipList}

abbrev pub three : Item
three = record { ptr = 2; key = pos 3; value = pos 30; level = 1 }

abbrev pub seven : Item
seven = record { ptr = 3; key = pos 7; value = pos 70; level = 0 }

abbrev pub tower_of : Item → List Item → Tower
tower_of x rest = record {
  key = x.key;
  value = x.value;
  level = x.level;
  reclaim_next = null;
  forward = λ l. link (next_at l rest);
}

abbrev pub head : Tower
head = record {
  key = key_min;
  value = pos 0;
  level = 15;
  reclaim_next = null;
  forward = λ l. link (next_at l (three ∷ seven ∷ []));
}

-- Two towers, and the calling thread in the first of two cells.
abbrev pub two_towers : Memory
two_towers = record {
  tower = λ p.
      if p == header
      then some head
      else if p == 2
      then some (tower_of three (seven ∷ []))
      else if p == 3
      then some (tower_of seven [])
      else none;
  max_level = 1;
  errno = no_error;
  reclaim_lists = replicate 4 null;
  reclaim_lock = false;
  global_epoch = pos 1;
  local_epochs = pos 0 ∷ minus_one ∷ [];
  local_epoch = some 0;
}

pub two_towers-IsSkipList : IsSkipList two_towers.tower (three ∷ seven ∷ [])
two_towers-IsSkipList = record {
  head = head;
  found = refl;
  level = refl;
  leads = λ l h. refl;
  links = (
    omega arith,
    record {
      here = tower_of three (seven ∷ []);
      found = refl;
      key = refl;
      value = refl;
      level = refl;
      leads = λ l h. refl;
    },
    (
      omega arith,
      record {
        here = tower_of seven [];
        found = refl;
        key = refl;
        value = refl;
        level = refl;
        leads = λ l h. refl;
      },
      tt,
    ),
  );
  apart = (refl, (refl, tt));
  low = (omega arith, (omega arith, tt));
  sorted = ((refl, tt), (tt, tt));
}

abbrev pub outside : Outside
outside = record {
  setspecific = pos 0;
  fresh = 4;
  rand_max = 100;
  rands = 10 ∷ 90 ∷ [];
  resets = 1;
  fuel = 3;
}

-- ===== src/Sqlrun/Permissions/SystemTables.antt =====
-- What `CheckSystemTableInSQL` finds, and what it overlooks.
use mathlib.Core.Bool.{Bool-set}
use mathlib.Core.Logic.{∥∥₁_elim}
use mathlib.Core.List.{Mem, Perm, Permᴰ}
use data_flow_agent_hub.Base.{
  ℕ, ◌+◌, ◌-◌, ◌<◌, Text, to_upper, index, length, length-append, get_elem?, any, is_some, List, [],
  ◌∷◌, ◌++◌, append_assoc, Bool, true, false, Option, none, some, ◌≡◌, refl, ap, sym, ◌∙◌, arith,
}
use data_flow_agent_hub.Base.Search.{
  get_elem?-append_left, get_elem?-append_right, find?-sound, find?-Mem, is_some-find?, index-split,
  index-append,
}
use data_flow_agent_hub.Sqlrun.Permissions.{
  ident_at, delimited, names_table, check_system_table_in_sql,
}

-- `name` stands in `upper` with no identifier character before it or behind it
pub record StandsAlone (upper name : Text) : Type 0 where
  pub pre : Text
  pub post : Text
  pub split : upper ≡ pre ++ (name ++ post)
  pub before : ident_at (get_elem? pre (length pre - 1)) ≡ false
  pub behind : ident_at (get_elem? post 0) ≡ false

ident_at-none : ident_at none ≡ false
unfolding ident_at
ident_at-none = refl

delimited-before :
    (pre r : Text) (size : ℕ)
    → delimited (pre ++ r) size (some (length pre)) ≡ true
    → ident_at (get_elem? pre (length pre - 1)) ≡ false
unfolding delimited
delimited-before [] r size h = refl
delimited-before (c ∷ pre) r size h =
    ground (arith, get_elem?-append_left (c ∷ pre) r (length (c ∷ pre) - 1) (omega arith))

delimited-behind :
    (pre name post : Text)
    → delimited (pre ++ (name ++ post)) (length name) (some (length pre)) ≡ true
    → ident_at (get_elem? post 0) ≡ false
unfolding delimited
delimited-behind pre name [] h = refl
delimited-behind pre name (d ∷ post) h = ground (
  arith,
  get_elem?-append_right pre (name ++ (d ∷ post)) (length pre + length name) (length name) refl,
  get_elem?-append_right name (d ∷ post) (length name) 0 (omega arith),
  length-append pre (name ++ (d ∷ post)),
  length-append name (d ∷ post),
)

-- a delimited match, wherever the search found it, stands alone
delimited-StandsAlone :
    (upper name : Text) (o : Option ℕ)
    → index upper name ≡ o
    → delimited upper (length name) o ≡ true
    → StandsAlone upper name
delimited-StandsAlone upper name none e h = absurd (unfold delimited in cc h)
delimited-StandsAlone upper name (some n) e h =
    let (pre, post, split, size) = index-split upper name n e in
    let at : delimited (pre ++ (name ++ post)) (length name) (some (length pre)) ≡ true =
      ap (λ o. delimited (pre ++ (name ++ post)) (length name) (some o)) size
      ∙ ap (λ u. delimited u (length name) (some n)) (sym split)
      ∙ h in
    record {
      pre = pre;
      post = post;
      split = split;
      before = delimited-before pre (name ++ post) (length name) at;
      behind = delimited-behind pre name post at;
    }

-- Whatever the order in which Go ranges over the map, a table that is reported is one of the map,
-- and its name, in capitals, stands in the statement, in capitals, with no letter, digit or
-- underscore before it or behind it.
pub check_system_table_sound :
    (order : List Text) (sql tbl : Text)
    → check_system_table_in_sql order sql ≡ some tbl
    → Mem tbl order × StandsAlone (to_upper sql) (to_upper tbl)
unfolding check_system_table_in_sql
check_system_table_sound order sql tbl h = (
  find?-Mem (names_table (to_upper sql)) order tbl h,
  delimited-StandsAlone (to_upper sql) (to_upper tbl) _ refl
      (find?-sound (names_table (to_upper sql)) order tbl h),
)

any-Permᴰ : (p : Text → Bool) {xs ys : List Text} → Permᴰ xs ys → any p xs ≡ any p ys
any-Permᴰ p Permᴰ.nil = refl
any-Permᴰ p (Permᴰ.cons e d) = ground (arith, ap p e, any-Permᴰ p d)
any-Permᴰ p (Permᴰ.swap e f) = ground (arith, ap p e, ap p f)
any-Permᴰ p (Permᴰ.trans d e) = any-Permᴰ p d ∙ any-Permᴰ p e

-- Two runs that range over the map in different orders agree on whether the statement is refused.
pub check_system_table-order :
    (order other : List Text) (sql : Text)
    → Perm order other
    → is_some (check_system_table_in_sql order sql) ≡ is_some (check_system_table_in_sql other sql)
unfolding check_system_table_in_sql
check_system_table-order order other sql perm =
    is_some-find? (names_table (to_upper sql)) order
    ∙ ∥∥₁_elim perm (Bool-set _ _) (any-Permᴰ (names_table (to_upper sql)))
    ∙ sym (is_some-find? (names_table (to_upper sql)) other)

delimited-masked :
    (p r : Text) (size : ℕ)
    → 0 < length p
    → ident_at (get_elem? p (length p - 1)) ≡ true
    → delimited (p ++ r) size (some (length p)) ≡ false
unfolding delimited
delimited-masked p r size pos h =
    ground (arith, get_elem?-append_left p r (length p - 1) (omega arith))

-- Only the first match of a name is looked at. Where that one is the end of a longer identifier, as
-- `USERS` in `MY_USERS`, the table is not found, whatever follows: also where the statement goes
-- on to name the table itself.
pub names_table-masked :
    (p tbl rest : Text)
    → index (p ++ to_upper tbl) (to_upper tbl) ≡ some (length p)
    → 0 < length p
    → ident_at (get_elem? p (length p - 1)) ≡ true
    → names_table (p ++ (to_upper tbl ++ rest)) tbl ≡ false
unfolding names_table
names_table-masked p tbl rest first pos h =
    let there : index (p ++ (to_upper tbl ++ rest)) (to_upper tbl) ≡ some (length p) =
      ap (λ u. index u (to_upper tbl)) (sym (append_assoc p (to_upper tbl) rest))
      ∙ index-append (p ++ to_upper tbl) (to_upper tbl) rest (length p) first in
    ap (delimited (p ++ (to_upper tbl ++ rest)) (length (to_upper tbl))) there
    ∙ delimited-masked p (to_upper tbl ++ rest) (length (to_upper tbl)) pos h

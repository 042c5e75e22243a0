-- ===== src/Tests/Memory.antt =====
-- An instance of the data base interface: a table is the list of its rows, with a gap where a row was
-- deleted, and a row's id is its place in the list.
use uza_mobility_bn.Base.{
  arith, ap, is_some, none, some, List, [], ◌∷◌, ◌++◌, Option, length, get_elem?,
}
use uza_mobility_bn.Db.{Prisma, PrismaLaws, on_row}
use uza_mobility_bn.Tests.Tables.{matching, first, last, change, change_many}
use uza_mobility_bn.Tests.Queries.{
  length-Memᴰ, All-found, matching_sound, onto, onto-length, onto-All,
}
use uza_mobility_bn.Tests.Stored.{
  join, lift, join_found, pick, stored-new_id, stored-insert, stored-update, stored-update_many,
  stored-delete_many, stored-first, stored-missed, stored_sound, stored-listed,
}
use text.Mathlib.Text.{find?}

instance abbrev pub memory : Prisma
memory = record {
  Table = λ R. List (Option R);
  find_unique = λ t i. join (get_elem? t i);
  find_first = λ t p. join_found (first (lift p) 0 t);
  find_last_by = λ t column p. join (last (lift (λ _. p) 0) t none);
  find_many = λ t p. pick (matching (lift p) 0 t);
  find_newest = λ t p. onto (pick (matching (lift p) 0 t)) [];
  contains = λ column text. is_some (find? column text);
  count = λ t p. length (pick (matching (lift p) 0 t));
  new_id = λ t. length t;
  insert = λ t r. t ++ (some r ∷ []);
  update = λ t i f. change t i (on_row f);
  update_many = λ t p f. change_many (lift p) (on_row f) 0 t;
  delete_many = λ t p. change_many (lift p) (λ _. none) 0 t;
}

instance pub memory_laws : PrismaLaws
memory_laws = record {
  find-new_id = λ t. stored-new_id t;
  find-insert = λ t r j. stored-insert t r j;
  find-update = λ t i f j. stored-update t i f j;
  find-update_many = λ t p f j. stored-update_many t p f j;
  find-delete_many = λ t p j. stored-delete_many t p j;
  find_first-some = λ t p i r e. stored-first t p i r e;
  find_first-none = λ t p i r e found. stored-missed t p i r e found;
  find_many-sound = λ t p.
      stored_sound t p (matching (lift p) 0 t)
        (All-found (lift p) t (matching (lift p) 0 t) (matching_sound (lift p) 0 t));
  find_many-complete = λ t p i r found holds. stored-listed t p i r found holds;
  count-pos = λ t p i r found holds.
      length-Memᴰ (pick (matching (lift p) 0 t)) (i, r) (stored-listed t p i r found holds);
  count-zero = λ t p e. ap length e;
  find_newest-length = λ t p. omega (arith, onto-length (pick (matching (lift p) 0 t)) []);
  find_newest-sound = λ t p.
      onto-All _ (pick (matching (lift p) 0 t)) []
        (stored_sound t p (matching (lift p) 0 t)
          (All-found (lift p) t (matching (lift p) 0 t) (matching_sound (lift p) 0 t)))
        tt;
}

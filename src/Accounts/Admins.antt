-- ===== src/Accounts/Admins.antt =====
-- The administrators that `update_user` of apps/api/app/services/auth_service.py leaves.
use aidflow.Prelude.{
  ℕ, String, ◌≡◌, refl, ◌⊎◌, inl, inr, Bool, true, Option, none, some, List, [], ◌∷◌, arith, any,
  All, is_text, ◌==◌,
}
use aidflow.Models.Table.{save}
use aidflow.Accounts.{put_user, audit}
use aidflow.Accounts.Rows.{User, Accounts, Unicode, Crypto, Settings, Answer, ok, err, ◌>>=◌}
use aidflow.Accounts.Manage.{
  is_admin, other_admin, ensure_admin_remains, rename, change_role, change_active, reset_password,
  log_changes, UserUpdate, update_user,
}

abbrev pub has_admin : List User → Bool
has_admin = any is_admin

-- Someone else is an administrator, or the account itself is.
abbrev Covered : ℕ → List User → User → Type 0
Covered id users u = (other_admin id users ≡ true) ⊎ (is_admin u ≡ true)

other-save :
    (u : User) (users : List User)
    → other_admin u.id users ≡ true
    → has_admin (save (λ x. x.id) u users) ≡ true
unfolding save
other-save u [] h = cc
other-save u (x ∷ users) h = ground (arith, other-save u users)

-- Some row has this identifier.
abbrev pub present : ℕ → List User → Bool
present id = any (λ x. x.id == id)

own-save :
    (u : User) (users : List User)
    → is_admin u ≡ true
    → present u.id users ≡ true
    → has_admin (save (λ x. x.id) u users) ≡ true
unfolding save
own-save u [] h i = cc
own-save u (x ∷ users) h i = ground (arith, own-save u users h)

put-Covered :
    (u : User) (users : List User)
    → present u.id users ≡ true
    → Covered u.id users u
    → has_admin (save (λ x. x.id) u users) ≡ true
put-Covered u users i (inl h) = other-save u users h
put-Covered u users i (inr h) = own-save u users h i

-- A write of the account leaves the others, and its row, in place.
other_admin-save :
    (u : User) (users : List User)
    → other_admin u.id (save (λ x. x.id) u users) ≡ other_admin u.id users
unfolding save
other_admin-save u [] = refl
other_admin-save u (x ∷ users) = ground (arith, other_admin-save u users)

present-save :
    (u : User) (users : List User) → present u.id (save (λ x. x.id) u users) ≡ present u.id users
unfolding save
present-save u [] = refl
present-save u (x ∷ users) = ground (arith, present-save u users)

-- The row of an identifier is one.
abbrev pub IsOnly : User → List User → Type 0
IsOnly u = All (λ x. x.id ≡ u.id → x ≡ u)

Covered-now :
    (u : User) (users : List User) → IsOnly u users → has_admin users ≡ true → Covered u.id users u
Covered-now u [] o h = cc
Covered-now u (x ∷ users) (e, o) h = ground (arith, e, Covered-now u users o)

-- What a guarded change of an account keeps.
Kept : List User → User → User → Type 0
Kept users u u' = (u'.id ≡ u.id) × (Covered u.id users u → Covered u.id users u')

renamed_covered :
    (name : Option String) (u : User) (users : List User) → Kept users u (rename name u)
unfolding Kept
renamed_covered none u users = (refl, λ c. c)
renamed_covered (some name) u users = ground arith

role_covered :
    (actor : Option User) (role : Option String) (u u' : User) (db : Accounts)
    → change_role actor role u db ≡ ok u'
    → Kept db.users u u'
unfolding Kept change_role ensure_admin_remains
role_covered actor none u u' db h = ground arith
role_covered actor (some role) u u' db h = ground arith

active_covered :
    (actor : Option User) (active : Option Bool) (u u' : User) (db : Accounts)
    → change_active actor active u db ≡ ok u'
    → Kept db.users u u'
unfolding Kept change_active ensure_admin_remains
active_covered actor none u u' db h = ground arith
active_covered actor (some active) u u' db h = ground arith

reset_covered :
    (uni : Unicode) (k : Crypto) (cfg : Settings) (password : Option String) (u u' : User)
    (users : List User)
    → reset_password uni k cfg password u ≡ ok u'
    → Kept users u u'
unfolding Kept reset_password
reset_covered uni k cfg password u u' users h = ground arith

log_changes_users :
    (old new : User) (reset : Bool) (by : Option String) (db : Accounts)
    → (log_changes old new reset by db).users ≡ db.users
unfolding audit
log_changes_users old new reset by db = ground arith

bind_ok :
    {A B : Type 0} {b : B} (m : Answer A) (f : A → Answer B)
    → (m >>= f) ≡ ok b
    → (a : A) × (m ≡ ok a) × (f a ≡ ok b)
bind_ok (ok a) f h = (a, refl, h)
bind_ok (err e) f h = cc

carried :
    (users : List User) (a b : User) → Kept users a b → Covered a.id users a → Covered b.id users b
unfolding Kept
carried users a b (e, f) c = ground (arith, e, f c)

same_id : (users : List User) (a b : User) → Kept users a b → b.id ≡ a.id
unfolding Kept
same_id users a b (e, f) = e

-- The write of the account under way does not count for the others.
written :
    (u v : User) (users : List User)
    → v.id ≡ u.id
    → Covered v.id (save (λ x. x.id) u users) v
    → Covered v.id users v
written u v users e c = ground (arith, e, other_admin-save u users, c)

writing :
    (u : User) (users : List User)
    → Covered u.id users u
    → Covered u.id (save (λ x. x.id) u users) u
writing u users c = ground (arith, other_admin-save u users, c)

-- The second change and the reset happen after the write of the first change.
later-Covered :
    (users : List User) (u a b : User)
    → Covered u.id users u
    → Kept (save (λ x. x.id) u users) u a
    → Kept (save (λ x. x.id) u users) a b
    → present u.id users ≡ true
    → has_admin (save (λ x. x.id) b users) ≡ true
later-Covered users u a b c k k' i =
    let here = save (λ x. x.id) u users in
    let e : b.id ≡ u.id = cc (same_id here u a k, same_id here a b k') in
    put-Covered b users (ground (arith, e, i))
      (written u b users e (carried here a b k' (carried here u a k (writing u users c))))

-- An account that the table has, alone under its identifier, is updated by `update_user`: where an
-- active administrator was among the accounts, one is among them afterwards, whatever the update
-- changes and whoever asks for it.
pub update_user-has_admin :
    (uni : Unicode) (k : Crypto) (cfg : Settings) (actor : Option User) (by : Option String)
    (u u' : User) (up : UserUpdate) (db db' : Accounts)
    → IsOnly u db.users
    → present u.id db.users ≡ true
    → has_admin db.users ≡ true
    → update_user uni k cfg actor by u up db ≡ ok (u', db')
    → has_admin db'.users ≡ true
unfolding update_user
update_user-has_admin uni k cfg actor by u u' up db db' o i h e =
    let (roled, er, rest) = bind_ok (change_role actor up.role (rename up.display_name u) db) _ e in
    let (flagged, ef, rest') =
      bind_ok (change_active actor up.active roled (put_user roled db)) _ rest in
    let (reset, es, last) = bind_ok (reset_password uni k cfg up.password flagged) _ rest' in
    let named = rename up.display_name u in
    let k1 = renamed_covered up.display_name u db.users in
    let k2 = role_covered actor up.role named roled db er in
    let k3 = active_covered actor up.active roled flagged (put_user roled db) ef in
    let k4 = reset_covered uni k cfg up.password flagged reset (put_user roled db).users es in
    let e' : roled.id ≡ u.id = cc (same_id db.users u named k1, same_id db.users named roled k2) in
    let c =
      carried db.users named roled k2 (carried db.users u named k1 (Covered-now u db.users o h)) in
    let last' = later-Covered db.users roled flagged reset c k3 k4 (ground (arith, e', i)) in
    cc (last', log_changes_users u reset (is_text up.password) by (put_user reset db), last)

-- ===== src/GameTable/Signing.antt =====
-- T2 and T3 of table.ts: what a join token asserts, and what it takes to be believed.
use olive_branch.Prelude.{
  ℕ, ◌+◌, ◌*◌, ◌<◌, String, ◌≡◌, refl, Bool, true, false, not, Option, none, some, List, [], ◌∷◌,
  ◌++◌, ltb→lt, ◌==◌, if◌then◌else◌, arith, ap, sym, ◌∙◌, some-injective, Option-cases, ==_iff, inl,
  inr, ne_true,
}
use olive_branch.Family.Authorize.{Role, role_name, guardian}
use olive_branch.GameTable.Principals.{TablePrincipal, adult, child}
use olive_branch.GameTable.Table.{Seat, seat_0, seat_1, Decoded}
use olive_branch.GameTable.Messages.{Json, num, str, obj, Fields, get}
use olive_branch.GameTable.Tokens.{
  Text, NoDot, Codec, body_json, principal_json, JoinTokenFailure, ReadJoinTokenResult, ok, err,
  split_last, same_bytes, role_of_name, as_principal, is_fresh, decoded, read_body, mint_join_token,
  read_parts, read_join_token, as_text, as_seat,
}

split_last-none : (m : Text) → NoDot m → split_last m ≡ none
unfolding split_last
split_last-none [] h = refl
split_last-none (c ∷ cs) (ne, h) =
    rw (split_last-none cs h, ne_true (c == b'.') (λ e. ne ((==_iff _ _).0 e)), split_last)

split_last-append : (p m : Text) → NoDot m → split_last (p ++ b'.' ∷ m) ≡ some (p, m)
unfolding split_last
split_last-append [] m h = rw (split_last-none m h, split_last)
split_last-append (c ∷ p) m h = rw (split_last-append p m h, split_last)

split_last-later :
    (c : ℕ) (cs before after : Text)
    → split_last cs ≡ some (before, after)
    → split_last (c ∷ cs) ≡ some (c ∷ before, after)
unfolding split_last
split_last-later c cs before after e = rw (e, split_last)

split_last-here :
    (c : ℕ) (cs : Text)
    → split_last cs ≡ none
    → split_last (c ∷ cs) ≡ (if c == b'.' then some ([], cs) else none)
unfolding split_last
split_last-here c cs e = rw (e, split_last)

cut_here :
    (c : ℕ) (cs p m : Text)
    → ◌≡◌ {A = Option (Text × Text)} (if c == b'.' then some ([], cs) else none) (some (p, m))
    → (c ≡ b'.') × (p ≡ []) × (m ≡ cs)
cut_here c cs p m h = ground arith

split_last-some : (t p m : Text) → split_last t ≡ some (p, m) → t ≡ p ++ b'.' ∷ m
split_last-some [] p m h = absurd (unfold split_last in cc)
split_last-some (c ∷ cs) p m h = elim (Option-cases (split_last cs)) [
  | inl none_later ↦
      let (dot, empty, rest) = cut_here c cs p m (sym (split_last-here c cs none_later) ∙ h) in
      rw (dot, empty, rest)
  | inr ((before, after), later) ↦
      let same = some-injective _ _ (sym (split_last-later c cs before after later) ∙ h) in
      ap (◌∷◌ c) (split_last-some cs before after later) ∙ ap (λ q. q.0 ++ b'.' ∷ q.1) same
]

same_bytes_refl : (b : List ℕ) → same_bytes b b ≡ true
same_bytes_refl [] = refl
same_bytes_refl (x ∷ xs) = ground (arith, same_bytes_refl xs)

same_bytes-eq : (a b : List ℕ) → same_bytes a b ≡ true → a ≡ b
same_bytes-eq [] [] h = refl
same_bytes-eq (x ∷ xs) (y ∷ ys) h = ground (arith, same_bytes-eq xs ys)
same_bytes-eq _ _ h = cc

role_of_name-name : (r : Role) → role_of_name (role_name r) ≡ some r
role_of_name-name guardian = refl
role_of_name-name _ = refl

as_principal-json : (p : TablePrincipal) → as_principal (some (principal_json p)) ≡ some p
unfolding as_principal get
as_principal-json (adult u r) = rw (role_of_name-name r)
as_principal-json (child c) = refl

read_body-minted :
    (table_id : String) (seat : Seat) (p : TablePrincipal) (exp now : ℕ)
    → now < exp
    → read_body (some (body_json table_id seat p exp)) now
      ≡ ok (record { table_id = table_id; seat = seat; principal = p })
unfolding read_body get
read_body-minted table_id seat_0 p exp now h = ground (arith, as_principal-json p)
read_body-minted table_id seat_1 p exp now h = ground (arith, as_principal-json p)

is_fresh-num :
    (o : Option Json) (now : ℕ)
    → is_fresh o now ≡ true
    → (exp : ℕ) × (o ≡ some (num exp)) × (now < exp)
is_fresh-num (some (num exp)) now h = (exp, refl, ltb→lt now exp h)
is_fresh-num _ now h = cc

as_text-some : (o : Option Json) (s : String) → as_text o ≡ some s → o ≡ some (str s)
as_text-some (some (str s)) t h = ground arith
as_text-some _ t h = cc

decoded-ok :
    (t : Option String) (s : Option Seat) (p : Option TablePrincipal) (d : Decoded)
    → decoded t s p ≡ ok d
    → (t ≡ some d.table_id) × (s ≡ some d.seat) × (p ≡ some d.principal)
decoded-ok (some t) (some s) (some p) d h = ground arith
decoded-ok _ _ _ d h = cc

-- A guard that was passed.
passed :
    (b : Bool) (r : ReadJoinTokenResult) (f : JoinTokenFailure) (d : Decoded)
    → (if b then r else err f) ≡ ok d
    → (b ≡ true) × (r ≡ ok d)
passed true r f d h = (refl, h)
passed false r f d h = cc

passed_not :
    (b : Bool) (r : ReadJoinTokenResult) (f : JoinTokenFailure) (d : Decoded)
    → (if not b then err f else r) ≡ ok d
    → (b ≡ true) × (r ≡ ok d)
passed_not true r f d h = (refl, h)
passed_not false r f d h = cc

obj_body-ok :
    (fs : Fields) (now : ℕ) (d : Decoded)
    → read_body (some (obj fs)) now ≡ ok d
    → (is_fresh (get "exp" fs) now ≡ true)
      × (decoded
            (as_text (get "tableId" fs))
            (as_seat (get "seat" fs))
            (as_principal (get "principal" fs))
          ≡ ok d)
unfolding read_body
obj_body-ok fs now d h = passed_not _ _ _ d h

read_body-ok :
    (o : Option Json) (now : ℕ) (d : Decoded)
    → read_body o now ≡ ok d
    → (fs : Fields) × (exp : ℕ) × (o ≡ some (obj fs))
      × (get "exp" fs ≡ some (num exp))
      × (now < exp)
      × (get "tableId" fs ≡ some (str d.table_id))
      × (as_principal (get "principal" fs) ≡ some d.principal)
      × (as_seat (get "seat" fs) ≡ some d.seat)
read_body-ok (some (obj fs)) now d h =
    let (fresh, read) = obj_body-ok fs now d h in
    let (exp, is_num, before) = is_fresh-num _ now fresh in
    let (table, seat, principal) = decoded-ok _ _ _ d read in
    (fs, exp, refl, is_num, before, as_text-some _ _ table, principal, seat)
read_body-ok _ now d h = absurd (unfold read_body in cc)

module _ (k : Codec) where
  -- A minted token read with the same secret before it expires gives back exactly the table, the
  -- seat and the principal that it was minted for.
  pub read-mint :
      (secret : Text) (table_id : String) (seat : Seat) (p : TablePrincipal) (now ttl later : ℕ)
      → later < now + ttl * 1000
      → read_join_token k secret (mint_join_token k secret table_id seat p now ttl) later
        ≡ ok (record { table_id = table_id; seat = seat; principal = p })
  unfolding read_join_token mint_join_token
  read-mint secret table_id seat p now ttl later h =
      let body = body_json table_id seat p (now + ttl * 1000) in
      rw (split_last-append (k.payload_of body) _ (k.mac_text-NoDot _)) (
        parts-minted secret body (k.payload_of body) later refl
        ∙ read_body-minted table_id seat p (now + ttl * 1000) later h)
    where
      parts-minted :
          (secret : Text) (body : Json) (payload : Text) (later : ℕ)
          → payload ≡ k.payload_of body
          → read_parts k secret (some (payload, k.mac_text (k.hmac secret payload))) later
            ≡ read_body (some body) later
      parts-minted secret body [] later e = absurd (k.payload-nonempty body (sym e))
      parts-minted secret body (c ∷ cs) later e = rw (
        k.mac_bytes-text (k.hmac secret (c ∷ cs)),
        same_bytes_refl (k.hmac secret (c ∷ cs)),
        e,
        k.json_of-payload body,
      )

  -- What stands behind an accepted token.
  pub record Believed (secret token : Text) (now : ℕ) (d : Decoded) : Type 0 where
    pub payload : Text
    pub mac : Text
    pub cut : token ≡ payload ++ b'.' ∷ mac
    pub signed : k.mac_bytes mac ≡ k.hmac secret payload
    pub body : Fields
    pub exp : ℕ
    pub parsed : k.json_of payload ≡ some (obj body)
    pub says_exp : get "exp" body ≡ some (num exp)
    pub fresh : now < exp
    pub says_table : get "tableId" body ≡ some (str d.table_id)
    pub says_principal : as_principal (get "principal" body) ≡ some d.principal
    pub says_seat : as_seat (get "seat" body) ≡ some d.seat

  read_parts-ok :
      (secret : Text) (o : Option (Text × Text)) (now : ℕ) (d : Decoded)
      → read_parts k secret o now ≡ ok d
      → (payload : Text) × (mac : Text) × (o ≡ some (payload, mac))
        × (k.mac_bytes mac ≡ k.hmac secret payload)
        × (read_body (k.json_of payload) now ≡ ok d)
  unfolding read_parts
  read_parts-ok secret none now d h = cc
  read_parts-ok secret (some ([], mac)) now d h = cc
  read_parts-ok secret (some (c ∷ cs, mac)) now d h =
      let (same, read) = passed _ _ _ d h in (c ∷ cs, mac, refl, same_bytes-eq _ _ same, read)

  -- A token is accepted only if its payload carries the right signature under the secret, has not
  -- expired, and itself names the table, the seat and the principal that the server then acts on.
  pub read-Believed :
      (secret token : Text) (now : ℕ) (d : Decoded)
      → read_join_token k secret token now ≡ ok d
      → Believed secret token now d
  unfolding read_join_token
  read-Believed secret token now d h =
      let (payload, mac, cut, signed, read) = read_parts-ok secret (split_last token) now d h in
      let (fs, exp, parsed, says_exp, fresh, table, principal, seat) =
        read_body-ok (k.json_of payload) now d read in
      record {
        payload = payload;
        mac = mac;
        cut = split_last-some token payload mac cut;
        signed = signed;
        body = fs;
        exp = exp;
        parsed = parsed;
        says_exp = says_exp;
        fresh = fresh;
        says_table = table;
        says_principal = principal;
        says_seat = seat;
      }

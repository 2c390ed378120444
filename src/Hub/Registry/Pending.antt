-- ===== src/Hub/Registry/Pending.antt =====
-- native/hub/src/actors/registry_actor.rs: the previews that wait for an installation.
use langhuan.Prelude.{
  ℕ, suc, not, ◌&&◌, ◌+◌, ◌≤◌, ◌≡◌, refl, false, Option, none, some, [], ◌∷◌, Text, text_eq, same,
  same_iff, same_refl, arith, length, Bool-cases, Option-cases, inl, inr, ◌⊎◌, ◌∙◌, leb,
  if◌then◌else◌, ap,
}
use langhuan.Prelude.Table.{
  Table, lookup, has, upsert, erase, lookup-erase_key, count-erase, lookup-put_any,
}
use langhuan.Prelude.Table.Keys.{IsUnique, IsUnique-upsert, IsUnique-erase}
use langhuan.Hub.Registry.{
  PendingInstall, pending_installs_cap, Registry, oldest, make_room, push_pending, insert, remove,
}

abbrev id_of : Option (Text × ℕ) → Text
id_of none = []
id_of (some (id, n)) = id

abbrev seq_of : Option (Text × ℕ) → ℕ
seq_of none = 0
seq_of (some (id, n)) = n

abbrev entry : Text → ℕ → Option (Text × ℕ)
entry id n = some (id, n)

found_eq : (a b : Text) (m n : ℕ) → entry a m ≡ entry b n → (a ≡ b) × (m ≡ n)
found_eq a b m n e = (ap id_of e, ap seq_of e)

-- The row that was inserted first.
abbrev pub IsOldest : Text → ℕ → Table Text PendingInstall → Type 0
IsOldest id n t =
    ((p : PendingInstall) × (lookup id t ≡ some p) × (p.seq ≡ n))
    × ((j : Text) (p : PendingInstall) → lookup j t ≡ some p → n ≤ p.seq)

oldest-none : (t : Table Text PendingInstall) → oldest t ≡ none → t ≡ []
unfolding oldest
oldest-none [] e = refl
oldest-none ((id, p) ∷ t) e = elim (Option-cases (oldest t)) [
  | inl empty ↦ absurd (ground (arith, empty))
  | inr ((j, n), found) ↦ absurd (ground (arith, found))
]

pub oldest-IsOldest :
    (t : Table Text PendingInstall) (id : Text) (n : ℕ)
    → IsUnique t
    → oldest t ≡ some (id, n)
    → IsOldest id n t
unfolding oldest lookup
oldest-IsOldest [] id n u e = absurd (cc)
oldest-IsOldest ((j, p) ∷ t) id n (fresh, u) e = elim (Option-cases (oldest t)) [
  | inl empty ↦
      let (same_id, same_seq) = found_eq j id p.seq n (ground (arith, empty)) in
      (
        (p, ground (arith, same_iff j id, same_id), same_seq),
        λ k q there. ground (arith, ap (lookup k) (oldest-none t empty), same_seq),
      )
  | inr ((i, m), found) ↦ elim (Bool-cases (leb p.seq m)) [
    | inl first ↦
        let (same_id, same_seq) = found_eq j id p.seq n (ground (arith, found, first)) in
        (
          (p, ground (arith, same_iff j id, same_id), same_seq),
          λ k q there. ground (arith, (oldest-IsOldest t i m u found).1 k q, same_seq),
        )
    | inr later ↦
        let (same_id, same_seq) = found_eq i id m n (ground (arith, found, later)) in
        let ((q, there, e'), least) = oldest-IsOldest t i m u found in
        (
          (q, ground (arith, same_iff j id, same_id), ground (arith, same_seq)),
          λ k r at. ground (arith, least k r, same_seq),
        )
  ]
]

abbrev has_any : Text → Table Text PendingInstall → ℕ
has_any id t = if has id t then 1 else 0

length-insert :
    (id : Text) (p : PendingInstall) (t : Table Text PendingInstall)
    → length (insert id p t) + has_any id t ≡ suc (length t)
unfolding upsert lookup
length-insert id p [] = refl
length-insert id p ((j, q) ∷ t) = ground (arith, length-insert id p t)

length-remove_absent :
    (id : Text) (t : Table Text PendingInstall)
    → lookup id t ≡ none
    → length (remove id t) ≡ length t
unfolding erase lookup
length-remove_absent id [] gone = refl
length-remove_absent id ((j, q) ∷ t) gone = ground (arith, length-remove_absent id t)

length-remove :
    (id : Text) (p : PendingInstall) (t : Table Text PendingInstall)
    → IsUnique t
    → lookup id t ≡ some p
    → suc (length (remove id t)) ≡ length t
unfolding erase lookup
length-remove id p [] u there = absurd (cc)
length-remove id p ((j, q) ∷ t) (fresh, u) there =
    ground (arith, same_iff j id, length-remove_absent id t, length-remove id p t u)

-- The previews that wait: one for a feed, at most as many as the cap, and none later than the
-- counter.
pub record IsBounded {Feed : Type 0} (r : Registry Feed) : Type 0 where
  pub keys : IsUnique r.pending_installs
  pub few : length r.pending_installs ≤ pending_installs_cap
  pub counted :
      (id : Text) (p : PendingInstall)
      → lookup id r.pending_installs ≡ some p
      → p.seq ≤ r.pending_seq

length-remove_le : (id : Text) (t : Table Text PendingInstall) → length (remove id t) ≤ length t
length-remove_le id t = ground (arith, count-erase (λ k _. same k id) t)

pub IsBounded-remove :
    {Feed : Type 0} (id : Text) (r : Registry Feed)
    → IsBounded r
    → IsBounded (record r { pending_installs = remove id r.pending_installs })
IsBounded-remove id r b = record {
  keys = IsUnique-erase (λ k _. same k id) r.pending_installs b.keys;
  few = ground (arith, length-remove_le id r.pending_installs, b.few);
  counted = λ j p there.
      ground (arith, lookup-erase_key (λ k. same k id) j r.pending_installs, b.counted j p);
}

-- What there is room in: a preview is dropped only for one of another feed, and it is the oldest.
abbrev pub Dropped : Text → Text → Table Text PendingInstall → Type 0
Dropped feed_id id t =
    (has feed_id t ≡ false)
    × (length t ≡ pending_installs_cap)
    × ((p : PendingInstall) × (lookup id t ≡ some p)
        × ((j : Text) (q : PendingInstall) → lookup j t ≡ some q → p.seq ≤ q.seq))

-- At most the oldest preview goes.
record MakesRoom (feed_id : Text) (t t' : Table Text PendingInstall) : Type 0 where
  pub keys : IsUnique t'
  pub fits : length t' + (if has feed_id t' then 0 else 1) ≤ pending_installs_cap
  pub kept :
      (id : Text) → (lookup id t' ≡ lookup id t) ⊎ ((lookup id t' ≡ none) × Dropped feed_id id t)

make_room-stays :
    (feed_id : Text) (t : Table Text PendingInstall)
    → IsUnique t
    → length t + (if has feed_id t then 0 else 1) ≤ pending_installs_cap
    → MakesRoom feed_id t t
make_room-stays feed_id t u h = record { keys = u; fits = h; kept = λ id. inl refl }

make_room_lem :
    (feed_id : Text) (t : Table Text PendingInstall)
    → IsUnique t
    → length t ≤ pending_installs_cap
    → MakesRoom feed_id t (make_room feed_id t)
unfolding make_room
make_room_lem feed_id t u few =
    elim (Bool-cases (not (has feed_id t) && leb pending_installs_cap (length t))) [
      | inr roomy ↦ rw roomy (make_room-stays feed_id t u (ground arith))
      | inl full ↦ elim (Option-cases (oldest t)) [
        | inl empty ↦ absurd (ground (arith, ap length (oldest-none t empty)))
        | inr ((j, n), found) ↦
            let ((p, there, at), least) = oldest-IsOldest t j n u found in
            rw (full, found)
              record {
                keys = IsUnique-erase (λ k _. same k j) t u;
                fits = ground (arith, length-remove j p t u there);
                kept = λ id. elim (Bool-cases (same id j)) [
                  | inl hit ↦ rw ((same_iff id j).0 hit) (
                      inr (
                        lookup-erase_key (λ k. same k j) j t ∙ rw (same_refl j) refl,
                        (
                          ground arith,
                          ground arith,
                          (p, there, λ i q seen. ground (arith, least i q seen, at)),
                        ),
                      ))
                  | inr miss ↦ inl (lookup-erase_key (λ k. same k j) id t ∙ rw miss refl)
                ];
              }
      ]
    ]

module _ {Feed : Type 0} (feed_id content : Text) (source_url : Option Text) (r : Registry Feed)
    (b : IsBounded r) where
  room : MakesRoom feed_id r.pending_installs (make_room feed_id r.pending_installs)
  room = make_room_lem feed_id r.pending_installs b.keys b.few

  -- The preview that is pushed.
  abbrev pub pushed : PendingInstall
  pushed = record { content = content; source_url = source_url; seq = suc r.pending_seq }

  looked_up :
      (id : Text)
      → lookup id (push_pending feed_id content source_url r).pending_installs ≡ (
          if same feed_id id then some pushed else lookup id (make_room feed_id r.pending_installs))
  unfolding push_pending
  looked_up id = lookup-put_any feed_id id pushed (make_room feed_id r.pending_installs)

  pub push_pending-IsBounded : IsBounded (push_pending feed_id content source_url r)
  unfolding push_pending
  push_pending-IsBounded = record {
    keys = IsUnique-upsert feed_id _ _ (make_room feed_id r.pending_installs) room.keys;
    few =
        ground
          (arith, room.fits, length-insert feed_id pushed (make_room feed_id r.pending_installs));
    counted = λ id p there. elim (Bool-cases (same feed_id id)) [
      | inl hit ↦ ground (arith, looked_up id)
      | inr miss ↦ elim (room.kept id) [
        | inl stays ↦ ground (arith, looked_up id, b.counted id p)
        | inr (gone, why) ↦ absurd (ground (arith, looked_up id, gone))
      ]
    ];
  }

  -- In a registry within its limits, a preview that is pushed is kept under its feed with the next
  -- number of the counter, the limits hold after it, and every other preview stays, but for the
  -- oldest one where there are as many as the cap and none is of that feed.
  pub push_pending_lem :
      (id : Text)
      → IsBounded (push_pending feed_id content source_url r)
        × ((lookup id (push_pending feed_id content source_url r).pending_installs
              ≡ (if same feed_id id then some pushed else lookup id r.pending_installs))
            ⊎ ((lookup id (push_pending feed_id content source_url r).pending_installs ≡ none)
                × Dropped feed_id id r.pending_installs))
  push_pending_lem id = (
    push_pending-IsBounded,
    elim (room.kept id) [
      | inl stays ↦ inl (looked_up id ∙ rw stays refl)
      | inr (gone, why) ↦ elim (Bool-cases (same feed_id id)) [
        | inl hit ↦ inl (looked_up id ∙ rw hit refl)
        | inr miss ↦ inr (looked_up id ∙ rw (miss, gone) refl, why)
      ]
    ],
  )

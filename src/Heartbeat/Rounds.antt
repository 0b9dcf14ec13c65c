-- ===== src/Heartbeat/Rounds.antt =====
-- What a round of the heartbeat does to each row (`_heartbeat_round`,
-- api/app/services/node_heartbeat.py).
use pressure_platform.Prelude.{
  ℕ, ◌≤◌, ◌≡◌, refl, ap, ◌∙◌, sym, true, false, Bool, Option, none, some, List, [], ◌∷◌, arith, map,
  if◌then◌else◌, ◌==◌, inl, inr, Bool-cases, Option-cases, update_where, count_where, find,
}
use pressure_platform.Prelude.Text.{Text, text_eq, text_eq_refl, eq_of_text_eq}
use pressure_platform.Heartbeat.{
  NodeRow, NodeSnapshot, HeartbeatResult, Ssh, Paths, is_enabled_slave, same_time, snapshots,
  still_matches, beat, check_single_node, ensure_jmeter_server_running, write_results,
  heartbeat_round,
}

-- What the results do to one row, one after the other.
abbrev beats : List HeartbeatResult → NodeRow → NodeRow
beats [] x = x
beats (r ∷ results) x = beats results (if still_matches r.node x then beat r x else x)

update_where-map {ℓ} :
    {A : Type ℓ} (p : A → Bool) (f : A → A) (xs : List A)
    → update_where p f xs ≡ map (λ x. if p x then f x else x) xs
update_where-map p f [] = refl
update_where-map p f (x ∷ xs) = ap (◌∷◌ (if p x then f x else x)) (update_where-map p f xs)

map-map_row {ℓ} :
    {A : Type ℓ} (f g : A → A) (xs : List A) → map f (map g xs) ≡ map (λ x. f (g x)) xs
map-map_row f g [] = refl
map-map_row f g (x ∷ xs) = ap (◌∷◌ (f (g x))) (map-map_row f g xs)

map_same {ℓ} : {A : Type ℓ} (xs : List A) → map (λ x. x) xs ≡ xs
map_same [] = refl
map_same (x ∷ xs) = ap (◌∷◌ x) (map_same xs)

write_results-map :
    (results : List HeartbeatResult) (rows : List NodeRow)
    → write_results results rows ≡ map (beats results) rows
unfolding write_results
write_results-map [] rows = sym (map_same rows)
write_results-map (r ∷ results) rows =
    write_results-map results _
    ∙ ap (map (beats results)) (update_where-map (still_matches r.node) (beat r) rows)
    ∙ map-map_row (beats results) (λ x. if still_matches r.node x then beat r x else x) rows

-- One refreshed row, by the snapshot that has its key.
abbrev pub refreshed : (NodeSnapshot → HeartbeatResult) → Option NodeSnapshot → NodeRow → NodeRow
refreshed check none x = x
refreshed check (some n) x = if still_matches n x then beat (check n) x else x

abbrev pub snapshot_with : ℕ → List NodeSnapshot → Option NodeSnapshot
snapshot_with id = find (λ n. n.id == id)

abbrev with_id : ℕ → List NodeSnapshot → ℕ
with_id k = count_where (λ n. n.id == k)

matches-id :
    (n : NodeSnapshot) (x : NodeRow) → (n.id == x.node.id) ≡ false → still_matches n x ≡ false
unfolding still_matches
matches-id n x e = ground arith

module _ (check : NodeSnapshot → HeartbeatResult)
    (faithful : (n : NodeSnapshot) → (check n).node ≡ n) where
  -- Results of other nodes leave a row alone.
  beats-other :
      (snaps : List NodeSnapshot) (x : NodeRow)
      → with_id x.node.id snaps ≡ 0
      → beats (map check snaps) x ≡ x
  beats-other [] x h = refl
  beats-other (n ∷ snaps) x h =
      let apart : (n.id == x.node.id) ≡ false = ground arith in
      rw (faithful n, matches-id n x apart) (beats-other snaps x (ground arith))

  beats-refreshed :
      (snaps : List NodeSnapshot) (x : NodeRow)
      → with_id x.node.id snaps ≤ 1
      → beats (map check snaps) x ≡ refreshed check (snapshot_with x.node.id snaps) x
  beats-refreshed [] x h = refl
  beats-refreshed (n ∷ snaps) x h = elim (Bool-cases (n.id == x.node.id)) [
    | inr e ↦ rw (faithful n, matches-id n x e, e) (beats-refreshed snaps x (ground arith))
    | inl e ↦
        let rest : with_id x.node.id snaps ≡ 0 = ground arith in
        elim (Bool-cases (still_matches n x)) [
          | inl m ↦ rw (e, faithful n) (rw m (beats-other snaps (beat (check n) x) rest))
          | inr m ↦ rw (e, faithful n) (rw m (beats-other snaps x rest))
        ]
  ]

check-faithful :
    (paths : Paths) (ssh : ℕ → Ssh) (now : ℕ) (n : NodeSnapshot)
    → (check_single_node paths ssh now n).node ≡ n
unfolding check_single_node ensure_jmeter_server_running
check-faithful paths ssh now n = ground arith

map-ext {ℓ} : {A : Type ℓ} (f g : A → A) (xs : List A) → ((x : A) → f x ≡ g x) → map f xs ≡ map g xs
map-ext f g [] h = refl
map-ext f g (x ∷ xs) h = rw (h x, map-ext f g xs h) refl

count-snapshots :
    (k : ℕ) (rows : List NodeRow)
    → with_id k (snapshots rows) ≤ count_where (λ x. x.node.id == k) rows
unfolding snapshots
count-snapshots k [] = omega arith
count-snapshots k (x ∷ rows) = ground (arith, count-snapshots k rows)

same_time-eq : (a b : Option ℕ) → same_time a b ≡ true → a ≡ b
same_time-eq none none h = refl
same_time-eq none (some b) h = ground arith
same_time-eq (some a) none h = ground arith
same_time-eq (some a) (some b) h = ground arith

-- A row that nobody has changed since a snapshot, as far as the snapshot shows.
pub record IsUnchanged (n : NodeSnapshot) (x : NodeRow) : Type 0 where
  pub id : x.node.id ≡ n.id
  pub enabled : is_enabled_slave x.node ≡ true
  pub host : x.node.host ≡ n.host
  pub port : x.port ≡ n.port
  pub username : x.username ≡ n.username
  pub password : x.password ≡ n.password
  pub modify_time : x.modify_time ≡ n.modify_time
  pub last_heartbeat : x.last_heartbeat ≡ n.last_heartbeat

still_matches-IsUnchanged :
    (n : NodeSnapshot) (x : NodeRow) → still_matches n x ≡ true → IsUnchanged n x
unfolding still_matches
still_matches-IsUnchanged n x h = record {
  id = ground arith;
  enabled = ground arith;
  host = eq_of_text_eq x.node.host n.host (ground arith);
  port = ground arith;
  username = eq_of_text_eq x.username n.username (ground arith);
  password = eq_of_text_eq x.password n.password (ground arith);
  modify_time = ground arith;
  last_heartbeat = same_time-eq x.last_heartbeat n.last_heartbeat (ground arith);
}

same_time-of_eq : (a b : Option ℕ) → a ≡ b → same_time a b ≡ true
same_time-of_eq none none h = refl
same_time-of_eq none (some b) h = ground arith
same_time-of_eq (some a) none h = ground arith
same_time-of_eq (some a) (some b) h = ground arith

text_eq-of_eq : (s t : Text) → s ≡ t → text_eq s t ≡ true
text_eq-of_eq s t h = rw h (text_eq_refl t)

IsUnchanged-still_matches :
    (n : NodeSnapshot) (x : NodeRow) → IsUnchanged n x → still_matches n x ≡ true
unfolding still_matches
IsUnchanged-still_matches n x u = ground (
  arith,
  u.id,
  u.enabled,
  text_eq-of_eq x.node.host n.host u.host,
  u.port,
  text_eq-of_eq x.username n.username u.username,
  text_eq-of_eq x.password n.password u.password,
  u.modify_time,
  same_time-of_eq x.last_heartbeat n.last_heartbeat u.last_heartbeat,
)

-- What a round makes of a row: nothing, or the beat of the probe of its own snapshot.
pub data IsRefreshed (check : NodeSnapshot → HeartbeatResult) (snaps : List NodeSnapshot)
    (x : NodeRow) : NodeRow → Type 0 where
  kept :
      ((n : NodeSnapshot) → snapshot_with x.node.id snaps ≡ some n → ¬ IsUnchanged n x)
      → IsRefreshed check snaps x x
  beaten :
      (n : NodeSnapshot)
      → snapshot_with x.node.id snaps ≡ some n
      → IsUnchanged n x
      → IsRefreshed check snaps x (beat (check n) x)

heartbeat_round-refreshed :
    (paths : Paths) (ssh : ℕ → Ssh) (now : ℕ) (read written : List NodeRow)
    → ((k : ℕ) → count_where (λ x. x.node.id == k) read ≤ 1)
    → heartbeat_round paths ssh now read written
      ≡ map
          (λ x.
            refreshed
              (check_single_node paths ssh now)
              (snapshot_with x.node.id (snapshots read))
              x)
          written
unfolding heartbeat_round
heartbeat_round-refreshed paths ssh now read written distinct =
    write_results-map (map (check_single_node paths ssh now) (snapshots read)) written
    ∙ map-ext _ _ written (λ x.
      beats-refreshed (check_single_node paths ssh now) (check-faithful paths ssh now)
        (snapshots read) x (omega (arith, count-snapshots x.node.id read, distinct x.node.id)))

refreshed-IsRefreshed :
    (check : NodeSnapshot → HeartbeatResult) (snaps : List NodeSnapshot) (x : NodeRow)
    → IsRefreshed check snaps x (refreshed check (snapshot_with x.node.id snaps) x)
refreshed-IsRefreshed check snaps x = elim (Option-cases (snapshot_with x.node.id snaps)) [
  | inl e ↦ rw e (kept (λ n f. absurd (ground (arith, e, f))))
  | inr (n, e) ↦ elim (Bool-cases (still_matches n x)) [
    | inl m ↦ rw (e, m) (beaten n e (still_matches-IsUnchanged n x m))
    | inr m ↦
        rw (e, m)
          (kept (λ o f u.
            let same : n ≡ o = ground (arith, e, f) in
            let true_ : still_matches n x ≡ true = rw same (IsUnchanged-still_matches o x u) in
            ground arith))
  ]
]

-- A round of the heartbeat changes each row by itself, whatever others have done to the table
-- between its reading and its writing: a row whose key was the key of an enabled slave when the
-- table was read, which is an enabled slave still, and whose address, credentials, time of change
-- and time of heartbeat are what they were, takes over what that node's own probe found; every
-- other row stays as it is. The keys of the table that was read are distinct.
pub heartbeat_round-IsRefreshed :
    (paths : Paths) (ssh : ℕ → Ssh) (now : ℕ) (read written : List NodeRow)
    → ((k : ℕ) → count_where (λ x. x.node.id == k) read ≤ 1)
    → (change : NodeRow → NodeRow) × (heartbeat_round paths ssh now read written
        ≡ map change written)
      × ((x : NodeRow)
          → IsRefreshed (check_single_node paths ssh now) (snapshots read) x (change x))
heartbeat_round-IsRefreshed paths ssh now read written distinct = (
  _,
  heartbeat_round-refreshed paths ssh now read written distinct,
  refreshed-IsRefreshed (check_single_node paths ssh now) (snapshots read),
)

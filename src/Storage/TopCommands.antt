-- ===== src/Storage/TopCommands.antt =====
-- The ten most frequent commands of sortCommandStats.
use patience.Base.{
  ℕ, zero, suc, ◌+◌, ◌≤◌, ◌≡◌, ltb, refl, ap, ◌∙◌, Bool, Bool-cases, inl, inr, List, [], ◌∷◌, ◌++◌,
  length, take, drop, count, All, All-map, All-take, take-drop, length-take, append_drop-length,
  if◌then◌else◌, arith,
}
use patience.Storage.{CommandStats, insert_command, sort_commands, sort_command_stats}

abbrev pub AtMost : CommandStats → CommandStats → Type 0
AtMost c d = d.count ≤ c.count

-- The numbers of runs do not increase.
abbrev pub IsDescending : List CommandStats → Type 0
IsDescending [] = Unit
IsDescending (c ∷ cs) = All (AtMost c) cs × IsDescending cs

insert_command-All :
    (P : CommandStats → Type 0) (c : CommandStats) (cs : List CommandStats)
    → P c
    → All P cs
    → All P (insert_command c cs)
unfolding insert_command
insert_command-All P c [] p h = (p, tt)
insert_command-All P c (d ∷ ds) p h = elim (Bool-cases (ltb c.count d.count)) [
  | inl e ↦ rw e (h.0, insert_command-All P c ds p h.1)
  | inr e ↦ rw e (p, h)
]

insert_command-IsDescending :
    (c : CommandStats) (cs : List CommandStats)
    → IsDescending cs
    → IsDescending (insert_command c cs)
unfolding insert_command
insert_command-IsDescending c [] h = (tt, tt)
insert_command-IsDescending c (d ∷ ds) h = elim (Bool-cases (ltb c.count d.count)) [
  | inl e ↦
      rw e (
        insert_command-All (AtMost d) c ds (ground arith) h.0,
        insert_command-IsDescending c ds h.1,
      )
  | inr e ↦ rw e (
      let le : d.count ≤ c.count = ground arith in
      ((le, All-map (λ x y. omega (arith, y, le)) ds h.0), h))
]

sort_commands-IsDescending : (cs : List CommandStats) → IsDescending (sort_commands cs)
unfolding sort_commands
sort_commands-IsDescending [] = tt
sort_commands-IsDescending (c ∷ cs) =
    insert_command-IsDescending c _ (sort_commands-IsDescending cs)

count-insert_command :
    (p : CommandStats → Bool) (c : CommandStats) (cs : List CommandStats)
    → count p (insert_command c cs) ≡ count p (c ∷ cs)
unfolding count insert_command
count-insert_command p c [] = refl
count-insert_command p c (d ∷ ds) = ground (arith, count-insert_command p c ds)

count-sort_commands :
    (p : CommandStats → Bool) (cs : List CommandStats) → count p (sort_commands cs) ≡ count p cs
unfolding count sort_commands
count-sort_commands p [] = refl
count-sort_commands p (c ∷ cs) =
    count-insert_command p c (sort_commands cs)
    ∙ ap (λ n. (if p c then 1 else 0) + n) (count-sort_commands p cs)

IsDescending-take : (n : ℕ) (cs : List CommandStats) → IsDescending cs → IsDescending (take n cs)
IsDescending-take zero cs h = tt
IsDescending-take (suc n) [] h = h
IsDescending-take (suc n) (c ∷ cs) h = (All-take (AtMost c) n cs h.0, IsDescending-take n cs h.1)

-- The list that is shown of a table: in descending order, with as many entries as it shows, and
-- with a rest that, behind it, is still in descending order and has the table's entries again.
pub record IsTop (stats shown rest : List CommandStats) : Type 0 where
  pub number :
      length shown ≡ (if ltb 10 (length (shown ++ rest)) then 10 else length (shown ++ rest))
  pub order : IsDescending (shown ++ rest)
  pub entries : (p : CommandStats → Bool) → count p (shown ++ rest) ≡ count p stats

parts-IsTop :
    (stats shown rest : List CommandStats)
    → shown ++ rest ≡ sort_commands stats
    → length shown
      ≡ (if ltb 10 (length (sort_commands stats)) then 10 else length (sort_commands stats))
    → IsTop stats shown rest
parts-IsTop stats shown rest eq h = record {
  number = rw eq h;
  order = rw eq (sort_commands-IsDescending stats);
  entries = λ p. rw eq (count-sort_commands p stats);
}

-- The statistics show at most ten commands, those with the most runs, most first: the shown
-- commands and the ones left out, in descending order of their runs, are the commands of the table,
-- each as often as there, and fewer than ten are shown only if none is left out.
pub sort_command_stats-IsTop :
    (stats : List CommandStats)
    → IsTop stats
        (sort_command_stats stats)
        (drop (length (sort_command_stats stats)) (sort_commands stats))
unfolding sort_command_stats
sort_command_stats-IsTop stats = elim (Bool-cases (ltb 10 (length (sort_commands stats)))) [
  | inl e ↦ rw e (
      let ten : length (take 10 (sort_commands stats)) ≡ 10 =
        length-take 10 (sort_commands stats) (ground arith) in
      parts-IsTop stats _ _
        (ap (λ n. take 10 (sort_commands stats) ++ drop n (sort_commands stats)) ten
          ∙ take-drop 10 (sort_commands stats))
        (rw e ten))
  | inr e ↦ rw e (parts-IsTop stats _ _ (append_drop-length (sort_commands stats)) (rw e refl))
]

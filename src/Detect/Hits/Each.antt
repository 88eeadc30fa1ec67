-- ===== src/Detect/Hits/Each.antt =====
-- What every hit satisfies, from what its last steps have tested.
use discord_rich_presence.Prelude.{
  ℕ, ◌≡◌, inl, inr, true, false, Option, none, some, get_elem?, Option-cases, Bool-cases,
}
use discord_rich_presence.Bridge.Handoff.{DetectSource}
use discord_rich_presence.Detect.Types.{ScannedExe, ScannedEntry, ScannedHit, Exec}
use discord_rich_presence.Detect.Hits.{
  Readings, is_suspended, stamp, live_or_none, arguments_fit, finish_direct_hit,
}

-- If there is a hit, it satisfies `P`.
abbrev pub Each : (ScannedHit → Type 0) → Option ScannedHit → Type 0
Each P none = Unit
Each P (some hit) = P hit

abbrev pub or_else : Option ScannedHit → Option ScannedHit → Option ScannedHit
or_else hit further = elim hit [ some h ↦ some h | none ↦ further ]

module _ (P : ScannedHit → Type 0) where
  pub Each-or_else :
      (hit further : Option ScannedHit) → Each P hit → Each P further → Each P (or_else hit further)
  Each-or_else none further h k = k
  Each-or_else (some hit) further h k = h

  pub live_or_none-Each :
      (w : Readings) (entry : ScannedEntry) (pid : ℕ) (source : DetectSource)
      → (is_suspended w pid ≡ false → P (stamp w entry pid source))
      → Each P (live_or_none w entry pid source)
  unfolding live_or_none
  live_or_none-Each w entry pid source p = elim (Bool-cases (is_suspended w pid)) [
    | inl suspended ↦ rw suspended tt
    | inr live ↦ rw live (p live)
  ]

  pub finish_direct_hit-Each :
      (w : Readings) (entry : ScannedEntry) (exe_index : ℕ) (process : Exec) (source : DetectSource)
      → ((exe : ScannedExe)
          → get_elem? entry.executables exe_index ≡ some exe
          → arguments_fit exe process ≡ true
          → is_suspended w process.pid ≡ false
          → P (stamp w entry process.pid source))
      → Each P (finish_direct_hit w entry exe_index process source)
  unfolding finish_direct_hit
  finish_direct_hit-Each w entry exe_index process source p =
      elim (Option-cases (get_elem? entry.executables exe_index)) [
        | inl gone ↦ rw gone tt
        | inr (exe, there) ↦ elim (Bool-cases (arguments_fit exe process)) [
          | inr misfit ↦ rw (there, misfit) tt
          | inl fit ↦
              rw (there, fit) (live_or_none-Each w entry process.pid source (p exe there fit))
        ]
      ]

pub Each-and :
    (A B : Type 0) (P : ScannedHit → Type 0) (hit : Option ScannedHit)
    → A
    → B
    → Each P hit
    → Each (λ h. A × B × P h) hit
Each-and A B P none a b p = tt
Each-and A B P (some hit) a b p = (a, b, p)

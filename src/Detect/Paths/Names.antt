-- ===== src/Detect/Paths/Names.antt =====
-- A name that names a path stands in it as whole components.
use discord_rich_presence.Prelude.{
  codes, Bytes, ◌-◌, ◌≤◌, ◌≡◌, refl, inl, inr, ◌⊎◌, ◌↔◌, Bool, true, false, not, ◌||◌, ◌&&◌, [],
  length, drop, ltb, arith,
}
use discord_rich_presence.Detect.Paths.{
  names_tail, equal_ignoring_case, any_window, names_a_bundle, without_mark, is_empty,
  exe_names_path,
}
use discord_rich_presence.Detect.Paths.Tails.{NamesPart, names_tail-NamesPart, NamesPart-names_tail}
use discord_rich_presence.Detect.Paths.Bundles.{
  NamesBundle, any_window-NamesBundle, NamesBundle-any_window,
}

-- How a name can name a path: as its tail, or as a bundle with its interior behind it. In both cases
-- it stands at the start of a component or brings its separator.
abbrev pub Names : Bytes → Bytes → Type 0
Names path name =
    NamesPart path name []
    ⊎ ((equal_ignoring_case (drop (length name - 4) name) (codes ".app") ≡ true)
        × (4 ≤ length name)
        × NamesBundle true path name)

taken_apart :
    (e t l x w : Bool)
    → (not e && (t || (not l && x && w))) ≡ true
    → (e ≡ false) × ((t ≡ true) ⊎ ((l ≡ false) × (x ≡ true) × (w ≡ true)))
taken_apart true t l x w h = absurd (cc)
taken_apart false true l x w h = (refl, inl refl)
taken_apart false false l x w h = (refl, inr (ground (arith, h)))

put_together :
    (e t l x w : Bool)
    → e ≡ false
    → (t ≡ true) ⊎ ((l ≡ false) × (x ≡ true) × (w ≡ true))
    → (not e && (t || (not l && x && w))) ≡ true
put_together e t l x w h (inl k) = rw (h, k) refl
put_together e t l x w h (inr (a, b, c)) = rw (h, a, b, c) (ground arith)

module _ (path name : Bytes) where
  abbrev bare : Bytes
  bare = without_mark name

  abbrev is_app : Bool
  is_app = equal_ignoring_case (drop (length bare - 4) bare) (codes ".app")

  -- A declared name names a path exactly when, without its launcher mark, it is not empty and is the
  -- path's tail, or ends with `.app` and stands in the path with a bundle's interior behind it. In
  -- both cases it stands at the start of a component or brings its separator; ASCII letters count
  -- without their case, and a Windows separator as `/`.
  pub exe_names_path_iff :
      (exe_names_path path name ≡ true)
      ↔ ((is_empty (without_mark name) ≡ false) × Names path (without_mark name))
  unfolding exe_names_path names_a_bundle
  exe_names_path_iff = (
    λ h.
        let (some_name, ways) =
          taken_apart (is_empty bare) (names_tail path bare) (ltb (length bare) 4) is_app
            (any_window true path bare) h in
        (some_name, forth ways),
    λ (some_name, n).
        put_together (is_empty bare) (names_tail path bare) (ltb (length bare) 4) is_app
          (any_window true path bare) some_name (back n),
  )
    where
      forth :
          (names_tail path bare ≡ true)
            ⊎ ((ltb (length bare) 4 ≡ false) × (is_app ≡ true) × (any_window true path bare ≡ true))
          → Names path bare
      forth (inl tail) = inl (names_tail-NamesPart path bare tail)
      forth (inr (long_enough, app, window)) =
          inr (app, ground arith, any_window-NamesBundle true path bare window)

      back :
          Names path bare
          → (names_tail path bare ≡ true)
            ⊎ ((ltb (length bare) 4 ≡ false) × (is_app ≡ true) × (any_window true path bare ≡ true))
      back (inl n) = inl (NamesPart-names_tail path bare n)
      back (inr (app, long_enough, n)) = inr (ground arith, app, NamesBundle-any_window path bare n)

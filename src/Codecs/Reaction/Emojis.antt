-- ===== src/Codecs/Reaction/Emojis.antt =====
-- The emoji of reactions, in the order of their index: the tables of
-- frontend/src/utils/meshcoreOpenPayloads.ts, as code points.
use remoteterm_meshcore.Prelude.{
  ◌+◌, ◌-◌, ◌/◌, ◌%◌, List, [], ◌∷◌, ◌++◌, map, Text, ltb, if◌then◌else◌,
}

-- The UTF-16 units of a text of code points: two for a code point over 0xffff.
abbrev pub utf16 : Text → Text
utf16 [] = []
utf16 (c ∷ s) =
    if ltb c 0x10000
    then c ∷ utf16 s
    else (0xd800 + (c - 0x10000) / 0x400) ∷ (0xdc00 + (c - 0x10000) % 0x400) ∷ utf16 s

abbrev pub quick_emojis : List Text
quick_emojis = map utf16 (
    (0x1f44d ∷ [])
    ∷ (0x2764 ∷ 0xfe0f ∷ [])
    ∷ (0x1f602 ∷ [])
    ∷ (0x1f389 ∷ [])
    ∷ (0x1f44f ∷ [])
    ∷ (0x1f525 ∷ [])
    ∷ [])

abbrev pub smileys : List Text
smileys = map utf16 (
    (0x1f600 ∷ [])
    ∷ (0x1f603 ∷ [])
    ∷ (0x1f604 ∷ [])
    ∷ (0x1f601 ∷ [])
    ∷ (0x1f605 ∷ [])
    ∷ (0x1f602 ∷ [])
    ∷ (0x1f923 ∷ [])
    ∷ (0x1f60a ∷ [])
    ∷ (0x1f607 ∷ [])
    ∷ (0x1f642 ∷ [])
    ∷ (0x1f643 ∷ [])
    ∷ (0x1f609 ∷ [])
    ∷ (0x1f60c ∷ [])
    ∷ (0x1f60d ∷ [])
    ∷ (0x1f970 ∷ [])
    ∷ (0x1f618 ∷ [])
    ∷ (0x1f617 ∷ [])
    ∷ (0x1f619 ∷ [])
    ∷ (0x1f61a ∷ [])
    ∷ (0x1f60b ∷ [])
    ∷ (0x1f61b ∷ [])
    ∷ (0x1f61d ∷ [])
    ∷ (0x1f61c ∷ [])
    ∷ (0x1f92a ∷ [])
    ∷ (0x1f928 ∷ [])
    ∷ (0x1f9d0 ∷ [])
    ∷ (0x1f913 ∷ [])
    ∷ (0x1f60e ∷ [])
    ∷ (0x1f978 ∷ [])
    ∷ (0x1f929 ∷ [])
    ∷ (0x1f973 ∷ [])
    ∷ (0x1f60f ∷ [])
    ∷ (0x1f612 ∷ [])
    ∷ (0x1f61e ∷ [])
    ∷ (0x1f614 ∷ [])
    ∷ (0x1f61f ∷ [])
    ∷ (0x1f615 ∷ [])
    ∷ (0x1f641 ∷ [])
    ∷ (0x1f623 ∷ [])
    ∷ (0x1f616 ∷ [])
    ∷ (0x1f62b ∷ [])
    ∷ (0x1f629 ∷ [])
    ∷ (0x1f97a ∷ [])
    ∷ (0x1f622 ∷ [])
    ∷ (0x1f62d ∷ [])
    ∷ (0x1f624 ∷ [])
    ∷ (0x1f620 ∷ [])
    ∷ (0x1f621 ∷ [])
    ∷ (0x1f92c ∷ [])
    ∷ (0x1f92f ∷ [])
    ∷ (0x1f633 ∷ [])
    ∷ (0x1f975 ∷ [])
    ∷ (0x1f976 ∷ [])
    ∷ (0x1f631 ∷ [])
    ∷ (0x1f628 ∷ [])
    ∷ (0x1f630 ∷ [])
    ∷ (0x1f625 ∷ [])
    ∷ (0x1f613 ∷ [])
    ∷ (0x1f917 ∷ [])
    ∷ (0x1f914 ∷ [])
    ∷ (0x1f92d ∷ [])
    ∷ (0x1f92b ∷ [])
    ∷ (0x1f925 ∷ [])
    ∷ (0x1f636 ∷ [])
    ∷ [])

abbrev pub gestures : List Text
gestures = map utf16 (
    (0x1f44d ∷ [])
    ∷ (0x1f44e ∷ [])
    ∷ (0x1f44a ∷ [])
    ∷ (0x270a ∷ [])
    ∷ (0x1f91b ∷ [])
    ∷ (0x1f91c ∷ [])
    ∷ (0x1f91e ∷ [])
    ∷ (0x270c ∷ 0xfe0f ∷ [])
    ∷ (0x1f91f ∷ [])
    ∷ (0x1f918 ∷ [])
    ∷ (0x1f44c ∷ [])
    ∷ (0x1f90c ∷ [])
    ∷ (0x1f90f ∷ [])
    ∷ (0x1f448 ∷ [])
    ∷ (0x1f449 ∷ [])
    ∷ (0x1f446 ∷ [])
    ∷ (0x1f447 ∷ [])
    ∷ (0x261d ∷ 0xfe0f ∷ [])
    ∷ (0x1f44b ∷ [])
    ∷ (0x1f91a ∷ [])
    ∷ (0x1f590 ∷ 0xfe0f ∷ [])
    ∷ (0x270b ∷ [])
    ∷ (0x1f596 ∷ [])
    ∷ (0x1f44f ∷ [])
    ∷ (0x1f64c ∷ [])
    ∷ (0x1f450 ∷ [])
    ∷ (0x1f932 ∷ [])
    ∷ (0x1f91d ∷ [])
    ∷ (0x1f64f ∷ [])
    ∷ (0x270d ∷ 0xfe0f ∷ [])
    ∷ (0x1f485 ∷ [])
    ∷ (0x1f933 ∷ [])
    ∷ (0x1f4aa ∷ [])
    ∷ [])

abbrev pub hearts : List Text
hearts = map utf16 (
    (0x2764 ∷ 0xfe0f ∷ [])
    ∷ (0x1f9e1 ∷ [])
    ∷ (0x1f49b ∷ [])
    ∷ (0x1f49a ∷ [])
    ∷ (0x1f499 ∷ [])
    ∷ (0x1f49c ∷ [])
    ∷ (0x1f5a4 ∷ [])
    ∷ (0x1f90d ∷ [])
    ∷ (0x1f90e ∷ [])
    ∷ (0x1f494 ∷ [])
    ∷ (0x2764 ∷ 0xfe0f ∷ 0x200d ∷ 0x1f525 ∷ [])
    ∷ (0x2764 ∷ 0xfe0f ∷ 0x200d ∷ 0x1fa79 ∷ [])
    ∷ (0x1f495 ∷ [])
    ∷ (0x1f49e ∷ [])
    ∷ (0x1f493 ∷ [])
    ∷ (0x1f497 ∷ [])
    ∷ (0x1f496 ∷ [])
    ∷ (0x1f498 ∷ [])
    ∷ (0x1f49d ∷ [])
    ∷ (0x1f49f ∷ [])
    ∷ (0x1f48c ∷ [])
    ∷ (0x1f4a2 ∷ [])
    ∷ (0x1f4a5 ∷ [])
    ∷ (0x1f4ab ∷ [])
    ∷ (0x1f4a6 ∷ [])
    ∷ (0x1f4a8 ∷ [])
    ∷ (0x1f573 ∷ 0xfe0f ∷ [])
    ∷ (0x1f4ac ∷ [])
    ∷ (0x1f441 ∷ 0xfe0f ∷ 0x200d ∷ 0x1f5e8 ∷ 0xfe0f ∷ [])
    ∷ (0x1f5e8 ∷ 0xfe0f ∷ [])
    ∷ (0x1f5ef ∷ 0xfe0f ∷ [])
    ∷ (0x1f4ad ∷ [])
    ∷ [])

abbrev pub objects : List Text
objects = map utf16 (
    (0x1f389 ∷ [])
    ∷ (0x1f38a ∷ [])
    ∷ (0x1f388 ∷ [])
    ∷ (0x1f381 ∷ [])
    ∷ (0x1f380 ∷ [])
    ∷ (0x1fa85 ∷ [])
    ∷ (0x1fa86 ∷ [])
    ∷ (0x1f3c6 ∷ [])
    ∷ (0x1f947 ∷ [])
    ∷ (0x1f948 ∷ [])
    ∷ (0x1f949 ∷ [])
    ∷ (0x26bd ∷ [])
    ∷ (0x26be ∷ [])
    ∷ (0x1f94e ∷ [])
    ∷ (0x1f3c0 ∷ [])
    ∷ (0x1f3d0 ∷ [])
    ∷ (0x1f3c8 ∷ [])
    ∷ (0x1f3c9 ∷ [])
    ∷ (0x1f3be ∷ [])
    ∷ (0x1f94f ∷ [])
    ∷ (0x1f3b3 ∷ [])
    ∷ (0x1f3cf ∷ [])
    ∷ (0x1f3d1 ∷ [])
    ∷ (0x1f3d2 ∷ [])
    ∷ (0x1f94d ∷ [])
    ∷ (0x1f3d3 ∷ [])
    ∷ (0x1f3f8 ∷ [])
    ∷ (0x1f94a ∷ [])
    ∷ (0x1f94b ∷ [])
    ∷ (0x1f945 ∷ [])
    ∷ (0x26f3 ∷ [])
    ∷ (0x1f525 ∷ [])
    ∷ (0x2b50 ∷ [])
    ∷ (0x1f31f ∷ [])
    ∷ (0x2728 ∷ [])
    ∷ (0x26a1 ∷ [])
    ∷ (0x1f4a1 ∷ [])
    ∷ (0x1f526 ∷ [])
    ∷ (0x1f3ee ∷ [])
    ∷ (0x1fa94 ∷ [])
    ∷ (0x1f4f1 ∷ [])
    ∷ (0x1f4bb ∷ [])
    ∷ (0x231a ∷ [])
    ∷ (0x1f4f7 ∷ [])
    ∷ (0x1f4fa ∷ [])
    ∷ (0x1f4fb ∷ [])
    ∷ (0x1f3b5 ∷ [])
    ∷ (0x1f3b6 ∷ [])
    ∷ (0x1f680 ∷ [])
    ∷ [])

-- All emoji, in the order used on the wire.
unfoldable pub reaction_emojis : List Text
reaction_emojis = quick_emojis ++ (smileys ++ (gestures ++ (hearts ++ objects)))

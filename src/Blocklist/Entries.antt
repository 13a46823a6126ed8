-- ===== src/Blocklist/Entries.antt =====
-- `parse_entries` of src/blocklist.rs: which lines of a payload are entries.
use antenna.Base.{true, List, [], ◌∷◌, ◌++◌, ◌≡◌, ◌≢◌, Bool-cases, inl, inr}
use antenna.Base.Text.{Text, trim, lines}
use antenna.Blocklist.{keeps, entries_of, parse_entries}

abbrev pub AllEntries : List Text → Type 0
AllEntries [] = Unit
AllEntries (u ∷ us) = (keeps u ≡ true) × AllEntries us

entries_of-AllEntries : (ls : List Text) → AllEntries (entries_of ls)
unfolding entries_of
entries_of-AllEntries [] = tt
entries_of-AllEntries (l ∷ ls) = elim (Bool-cases (keeps (trim l))) [
  | inl e ↦ rw (e, entries_of) (e, entries_of-AllEntries ls)
  | inr e ↦ rw (e, entries_of) (entries_of-AllEntries ls)
]

-- An entry that a payload can carry on a line of its own
abbrev pub IsLine : Text → Type 0
IsLine [] = Unit
IsLine (c ∷ s) = (c ≢ b'\n') × (c ≢ b'\r') × IsLine s

abbrev pub IsEntry : Text → Type 0
IsEntry u = IsLine u × (trim u ≡ u) × (keeps u ≡ true)

abbrev pub AllGood : List Text → Type 0
AllGood [] = Unit
AllGood (u ∷ us) = IsEntry u × AllGood us

-- One entry per line
abbrev pub payload_of : List Text → Text
payload_of [] = []
payload_of (u ∷ us) = u ++ b'\n' ∷ payload_of us

-- Whatever a payload holds, each of its entries is a text that is not empty and does not begin with `#`.
pub parse_entries-AllEntries : (s : Text) → AllEntries (parse_entries s)
unfolding parse_entries
parse_entries-AllEntries s = entries_of-AllEntries (lines s)

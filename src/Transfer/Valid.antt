-- ===== src/Transfer/Valid.antt =====
-- transfer/transfer.go: what a reader can act on, and the gaps between the parts of a file. Offsets
-- are 64 bits wide, and the end of a part wraps.
pub mod Parts
use sombrero.Base.{
  ℕ, ◌+◌, ◌-◌, ◌%◌, ◌^◌, Bool, true, false, not, ◌&&◌, ◌||◌, Option, none, some, List, [], ◌∷◌, ltb,
  ◌==◌, if◌then◌else◌, length,
}
use sombrero.Transfer.Types.{
  Bytes, Share, Account, WorkgroupAccounts, Ban, Connection, Server, Directory, Part, File,
}
use sombrero.Transfer.Encoding.{bytes_eq, no_object, is_some}

abbrev pub is_nil : {A : Type 0} → List A → Bool
is_nil [] = true
is_nil (x ∷ xs) = false

abbrev last_is : ℕ → Bytes → Bool
last_is c [] = false
last_is c (x ∷ []) = x == c
last_is c (x ∷ y ∷ ys) = last_is c (y ∷ ys)

unfoldable pub valid_path : Bytes → Bool
valid_path [] = false
valid_path (c ∷ cs) =
    if not (c == 47) then false else if not (is_nil cs) && last_is 47 (c ∷ cs) then false else true

module _ (Time Sealed : Type 0) where
  unfoldable pub valid_directory : Directory Time Sealed → Bool
  valid_directory d = valid_path d.path

  unfoldable pub valid_accounts : List (Account Time Sealed) → Bool
  valid_accounts [] = true
  valid_accounts (a ∷ rest) =
      let others = valid_accounts rest in
      if is_nil a.name then false else if not (length a.password_hash == 16) then false else others

  unfoldable pub valid_connection : Connection Time Sealed → Bool
  valid_connection c =
      if is_nil c.share.name
      then false
      else if not (length c.app_key == 0) && not (length c.app_key == 64)
      then false
      else valid_accounts c.accounts

  unfoldable pub named_shares : List (Share Time Sealed) → Bool
  named_shares [] = true
  named_shares (s ∷ rest) = not (is_nil s.name) && named_shares rest

  unfoldable pub valid_workgroups : List (WorkgroupAccounts Time Sealed) → Bool
  valid_workgroups [] = true
  valid_workgroups (g ∷ rest) = valid_accounts g.accounts && valid_workgroups rest

  abbrev pub named_hosts : List Ban → Bool
  named_hosts [] = true
  named_hosts (b ∷ rest) = not (is_nil b.host) && named_hosts rest

  unfoldable pub valid_server : Server Time Sealed → Bool
  valid_server s = named_shares s.shares && (valid_workgroups s.workgroups && named_hosts s.bans)

  unfoldable pub part_end : Part Time Sealed → ℕ
  part_end p = (p.offset + p.length) % 2 ^ 64

  abbrev pub carried : Option Bytes → ℕ → Bool
  carried none n = true
  carried (some b) n = length b == n

  -- One round of the loop over the parts.
  unfoldable pub valid_part : ℕ → ℕ → Part Time Sealed → Bool
  valid_part at size p =
      if p.length == 0
      then false
      else if ltb p.offset at
      then false
      else if ltb size (part_end p)
      then false
      else if not (carried p.inline p.length)
      then false
      else if bytes_eq p.object no_object
          && (not (is_some p.pin) && (not (is_some p.source) && not (is_some p.inline)))
      then false
      else true

  unfoldable pub valid_parts : ℕ → ℕ → List (Part Time Sealed) → Bool
  valid_parts at size [] = true
  valid_parts at size (p ∷ rest) = valid_part at size p && valid_parts (part_end p) size rest

  unfoldable pub valid_file : File Time Sealed → Bool
  valid_file f = if not (valid_path f.path) then false else valid_parts 0 f.size f.parts

  pub record Gap : Type 0 where
    pub offset : ℕ
    pub length : ℕ

  -- The loop of `Gaps`, with `at` where the part before ended.
  unfoldable pub gaps_from : ℕ → ℕ → List (Part Time Sealed) → List Gap
  gaps_from at size [] = if ltb at size then record { offset = at; length = size - at } ∷ [] else []
  gaps_from at size (p ∷ rest) =
      let others = gaps_from (part_end p) size rest in
      if ltb at p.offset then record { offset = at; length = p.offset - at } ∷ others else others

  unfoldable pub gaps : File Time Sealed → List Gap
  gaps f = gaps_from 0 f.size f.parts

  unfoldable pub complete : File Time Sealed → Bool
  complete f = length (gaps f) == 0

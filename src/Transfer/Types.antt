-- ===== src/Transfer/Types.antt =====
-- transfer/transfer.go: what a description holds. A text is its bytes, a time and a sealed object are
-- of types that this code does not define. A slice that may be nil is an option.
use sombrero.Base.{ℕ, Bool, List, Option}

abbrev pub Bytes : Type 0
Bytes = List ℕ

pub record PublicDir : Type 0 where
  pub path : Bytes
  pub read_only : Bool
  pub case_sensitive : Bool

pub record Workgroup : Type 0 where
  pub uuid : Bytes
  pub name : Bytes
  pub public_dirs : List PublicDir

pub record Ban : Type 0 where
  pub host : Bytes
  pub reason : Bytes

pub record Policy : Type 0 where
  pub account : Bytes
  pub read : Bool
  pub write : Bool
  pub delete : Bool
  pub execute : Bool

-- The bytes of a part to be fetched: what kind of server, where, and under which name.
pub record Source : Type 0 where
  pub kind : Bytes
  pub origin : Bytes
  pub bucket : Bytes
  pub key : Bytes

module _ (Time Sealed : Type 0) where
  pub record Header : Type 0 where
    pub created_at : Time
    pub source : Bytes
    pub origin : Bytes
    pub share : Bytes
    pub workgroup : Bytes

  pub record Share : Type 0 where
    pub name : Bytes
    pub kind : Bytes
    pub server : Bytes
    pub password : Bytes
    pub bucket : Bytes
    pub remark : Bytes
    pub created_at : Time
    pub data_shards : ℕ
    pub parity_shards : ℕ
    pub allow_guest : Bool
    pub allow_anonymous : Bool
    pub public_dir : Bytes
    pub skip_backup : Bool

  pub record Account : Type 0 where
    pub name : Bytes
    pub password_hash : Bytes
    pub created_at : Time

  pub record WorkgroupAccounts : Type 0 where
    pub workgroup : Workgroup
    pub accounts : List Account

  pub record Connection : Type 0 where
    pub share : Share
    pub workgroup : Workgroup
    pub accounts : List Account
    pub policies : List Policy
    pub app_key : Bytes

  pub record Server : Type 0 where
    pub shares : List Share
    pub workgroups : List WorkgroupAccounts
    pub bans : List Ban

  pub record Directory : Type 0 where
    pub path : Bytes
    pub owner : Bytes
    pub private : Bool
    pub read_only : Bool
    pub created_at : Time
    pub modified_at : Time

  -- `object` is a key of 32 bytes, zero where there is none.
  pub record Part : Type 0 where
    pub offset : ℕ
    pub data_offset : ℕ
    pub length : ℕ
    pub object : Bytes
    pub pin : Option Sealed
    pub source : Option Source
    pub inline : Option Bytes

  pub record File : Type 0 where
    pub path : Bytes
    pub owner : Bytes
    pub size : ℕ
    pub created_at : Time
    pub modified_at : Time
    pub parts : List Part

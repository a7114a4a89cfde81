-- ===== src/Inventory.antt =====
-- internal/inventory/inventory.go: hosts, their settings by inheritance, and their selection.
-- The order of a map is the order of its list. Reading and decoding a file are parameters of Load.
pub mod Resolve
pub mod Select
pub mod Load
use remote_command_orchestra.Common.{Bytes, List, ℤ, Dict}
use remote_command_orchestra.Domain.{Credential}

pub record Bastion : Type 0 where
  pub address : Bytes
  pub port : ℤ
  pub username : Bytes
  pub credential : Bytes

pub record Defaults : Type 0 where
  pub port : ℤ
  pub username : Bytes
  pub credential : Bytes
  pub bastion : Bytes
  pub tags : List Bytes
  pub variables : Dict Bytes

pub record Host : Type 0 where
  pub name : Bytes
  pub address : Bytes
  pub port : ℤ
  pub username : Bytes
  pub credential : Bytes
  pub bastion : Bytes
  pub tags : List Bytes
  pub variables : Dict Bytes

pub record Group : Type 0 where
  pub defaults : Defaults
  pub hosts : List Host

pub record Inventory : Type 0 where
  pub credentials : Dict Credential
  pub bastions : Dict Bastion
  pub defaults : Defaults
  pub groups : Dict Group
  pub hosts : List Host

pub record Selector : Type 0 where
  pub groups : List Bytes
  pub tags : List Bytes
  pub hosts : List Bytes

-- ===== src/Examples.antt =====
-- Tests and the theorems at concrete inputs, by the part of the program they are about.
mod ToolGroups
mod Execx
mod Oauth
mod Access
mod Sshpool
mod Hosts
mod Events
mod Imagex
mod Jobs
mod Oauthserver
mod Searchcore

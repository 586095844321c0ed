-- ===== src/CfProxy.antt =====
-- src/cfproxy_domains.go: the Cloudflare domains of the fallback. Names are the texts, State the part
-- of Config under cfproxyMu, Dials the slots of each domain, Choice the order in which they are tried,
-- Pool what the operations leave behind, Fallback the loop of cfproxyFallback over them, Fetch where
-- the domains come from and Fetched what is known of such pools.
pub mod Names
pub mod State
pub mod Dials
pub mod Choice
pub mod Pool
pub mod Cooldown
pub mod Fallback
pub mod Fetch
pub mod Fetched
mod Tests

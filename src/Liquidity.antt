-- ===== src/Liquidity.antt =====
-- The liquidity pool (modules/liquidity and blockchain/contracts/liquidity-contract.client.ts).
pub mod Defs
pub mod Contract
pub mod Service
pub mod Previews
pub mod RoundTrip
mod Tests

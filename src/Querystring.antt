-- ===== src/Querystring.antt =====
-- string/tquerystring.cpp, the class `tquerystring` and its items.
mod Items
mod Encode
mod Decode
mod Members
mod Entries
mod Rebuild
mod Storable
mod Keys
mod Records
mod Encoded
mod Joined
mod Leaves
mod RoundTrip
mod Refused
mod Fuel
mod Access
mod Tests
